-- ===== src/Central/Reaction/Own.antt =====
-- Which alerts are active after a heartbeat.
