-- ===== src/Lock.antt =====
-- cmd/kblockerctl/main.go, the commands that start and end a block: enable, disable, unblock,
-- unload, reload, crash, and the ciphertexts of the unload key that they keep.
pub mod Ciphers
pub mod Enable
pub mod Unlock
pub mod Reload
pub mod Guards
pub mod Keys
pub mod Unload
