-- ===== src/Echo/Answer.antt =====
-- What the echo server writes.
