-- ===== src/Handlers/Blobs/Probes.antt =====
-- Which project `probe_blob_project` finds.
use harbor_router.Common.{◌≡◌, false, List}
use harbor_router.Resolver.World.{Turn, completed, deadline, World}
use harbor_router.Handlers.Blobs.{has_blob}

-- A turn that is over and did not find the blob.
abbrev pub IsWithout : Turn → Type 0
IsWithout deadline = Unit
IsWithout (completed project probe) = has_blob probe ≡ false
