-- ===== src/Tests/Sharing.antt =====
-- The sharing functions on concrete rows.
