-- ===== src/Record/Clone.antt =====
-- record.c: a record and its clone, and how records are compared.
use craftsman_console.Record.{Record}
