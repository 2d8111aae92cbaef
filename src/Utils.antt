-- ===== src/Utils.antt =====
-- src/PowerAuth/utils: the byte stream writer and reader, and URL encoding.
pub mod Writer
pub mod Reader
pub mod Url
