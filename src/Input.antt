-- ===== src/Input.antt =====
-- hermeto/core/models/input.py: the user's input and its validators. `value_error` is what makes a
-- `ValidationError` of pydantic, and `parse_user_input` an `InvalidInput`.
pub mod Filters
pub mod Options
pub mod Package
pub mod Request
pub mod Packages
