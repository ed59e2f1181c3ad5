-- ===== src/Build/Config/Methods.antt =====
-- The methods that the build script writes, and their names (build/config.rs).
