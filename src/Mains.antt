-- ===== src/Mains.antt =====
-- The processes of the program side by side: src/qm/src/main.cpp, src/detect/src/main.cpp,
-- src/parse/src/main.cpp, src/ingestd/src/main.cpp and src/supervisor/src/main.cpp.
pub mod Exclusion
pub mod Endings
