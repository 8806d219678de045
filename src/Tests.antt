-- ===== src/Tests.antt =====
-- Runs of the model on concrete inputs, and instances of its theorems.
mod Machine
mod LlvmModel
mod Places
mod X86Model
mod MirModel
mod LightningModel
mod Brief
mod Translators
mod Examples
mod Blocks
mod Laws
mod Boot
