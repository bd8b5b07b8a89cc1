-- ===== src/Startup/Ready.antt =====
-- The stages of `main` put together.
