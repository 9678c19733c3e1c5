-- ===== src/Storage/Records/Laws.antt =====
-- What the table of request records holds after a record is stored.
