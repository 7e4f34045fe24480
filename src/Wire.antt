-- ===== src/Wire.antt =====
-- multy/src/common/Serializer.h, IEncrypt.h and multy/src/Network/Encryption.cpp: the segments that
-- go over the network, a header and an encrypted payload.
pub mod Cipher
pub mod Serializer
