-- ===== src/Sdl.antt =====
-- SDL blobs: src/nagus/sdl.py.
pub mod Header
pub mod Variables
pub mod Search
