-- ===== src/Serializers.antt =====
-- Serializers.h: reading and writing machine integers in a byte buffer.
pub mod Endian
pub mod Memory
pub mod Contract
pub mod Fixed
pub mod Triad
pub mod VarInt
pub mod Array
