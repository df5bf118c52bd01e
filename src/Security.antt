-- ===== src/Security.antt =====
-- security/src: boot verification and the authentication of CAN frames. SHA-256 (the crate sha2) and
-- the layout that the compiler gives to a `CanFrame` are parameters.
pub mod Bytes
pub mod Bootloader
pub mod Hmac
pub mod Hsm
pub mod Authentic
pub mod Examples
