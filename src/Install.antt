-- ===== src/Install.antt =====
-- internal/install: the commands that the wrapper of garm-cli lets through, the checks of a release, the
-- service of the controller, and the files that an installation manages.
pub mod Classify
pub mod Release
pub mod Service
pub mod Managed
