-- ===== src/Service.antt =====
-- How the node starts: archive/src/config.rs, cli/src/command.rs and cli/src/service.rs, and the
-- network's loop of client/service/src/lib.rs.
pub mod Base
pub mod Config
pub mod Start
pub mod Command
pub mod StartLaws
pub mod CommandLaws
pub mod Parts
pub mod PartsLaws
pub mod Network
pub mod NetworkLaws
pub mod NetworkStream
pub mod Build
pub mod LoadSpec
pub mod ChainSpec
