-- ===== src/Api.antt =====
-- src/api.c: the commands of the app. A command either answers at once or leaves the answer to a
-- flow, `IO_ASYNCH_REPLY`; a command that throws leaves what it has written so far.
pub mod Core
pub mod Buffer
pub mod Config
pub mod Address
pub mod Prepare
pub mod Confirm
pub mod Sign
pub mod Debug
