-- ===== src/Loader.antt =====
-- core/extensions/loader: the order of the extensions, and how they are loaded, initialized and
-- started.
pub mod Resolver
pub mod Boot
pub mod Examples
