-- ===== src/Tests/Ladder.antt =====
-- The fallback chain from its first model.
