-- ===== src/Util.antt =====
-- src/common/util.c and src/compat/strcasecmp.c: the helpers on strings.
pub mod Case
pub mod Escape
pub mod Unescape
pub mod Buffer
pub mod FileName
pub mod Print
pub mod Printed
pub mod Duration
pub mod Number
pub mod Decimal
mod Tests
