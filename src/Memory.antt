-- ===== src/Memory.antt =====
-- kernel/src/lib/memory.c: blocks of bytes in Block, strings in Chars, strtol in Number, and the
-- duplicating functions over the allocator in Dup, strtok and strtok_r in Tokens.
pub mod Block
pub mod Chars
pub mod Number
pub mod Dup
pub mod Tokens
