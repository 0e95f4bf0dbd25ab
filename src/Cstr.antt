-- ===== src/Cstr.antt =====
-- What the program uses of the C library's strings: a `char *` is the list of its bytes before
-- the NUL. `strcmp`, `strncmp`, `strstr`, `strchr`, `strrchr`, the truncation of `snprintf`, and
-- the character classes in the C locale.
mod Defs
pub mod Compare
pub mod Lines
pub mod Number
pub mod Scan
pub mod Sort
pub mod Exchange
pub mod Tokens
unfoldable pub use Defs.{
  Text, codes, equal, is, has_prefix, is_prefix_of, contains, clip, find_char, rfind_char, is_space,
  is_digit, is_alnum, skip_space, drop_space_end, trim, is_empty, mem_char, chomp,
}
