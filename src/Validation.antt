-- ===== src/Validation.antt =====
-- The checks on the names that go into upstream URLs: `is_safe_project_name` of src/discovery.rs,
-- `is_safe_image_name`, `is_safe_reference` and `normalize_docker_library_image` of src/proxy.rs.
pub mod Segments
pub mod Closure
use harbor_router.Common.{
  Bool, not, ◌&&◌, ◌++◌, if◌then◌else◌, Text, codes, is_empty, has_char, any, contains, is_control,
  text_eq, trim, ends_with, starts_with,
}

abbrev pub dots : Text
dots = codes ".."

abbrev pub lacks_control : Text → Bool
lacks_control s = not (any is_control s)

unfoldable pub is_safe_project_name : Text → Bool
is_safe_project_name name =
    not (is_empty name)
    && not (has_char b'/' name)
    && not (has_char b'\\' name)
    && not (contains dots name)
    && lacks_control name
    && text_eq name (trim name)

unfoldable pub is_safe_image_name : Text → Bool
is_safe_image_name name =
    not (is_empty name)
    && not (contains dots name)
    && not (has_char b'\\' name)
    && lacks_control name
    && not (starts_with (codes "/") name)
    && not (ends_with (codes "/") name)
    && text_eq name (trim name)

unfoldable pub is_safe_reference : Text → Bool
is_safe_reference reference =
    not (is_empty reference)
    && not (has_char b'/' reference)
    && not (has_char b'\\' reference)
    && not (contains dots reference)
    && lacks_control reference
    && text_eq reference (trim reference)

unfoldable pub normalize_docker_library_image : Text → Text
normalize_docker_library_image image =
    if has_char b'/' image then image else codes "library/" ++ image
