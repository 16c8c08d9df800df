-- ===== src/Crypto.antt =====
-- crypto: the encryption of texts under a hexadecimal key, the keys, and checksums.
mod Hex
mod Base64
mod Encryption
mod Checksum
mod FileDetails
