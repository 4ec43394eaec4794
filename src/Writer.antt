-- ===== src/Writer.antt =====
-- src/writer.cpp: the text checks, the XML escapes and the descriptors that the writer prints.
pub mod Checksum
pub mod Text
pub mod Time
