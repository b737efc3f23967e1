-- ===== src/Transaction/Commit/Tests.antt =====
-- A transaction that holds a lock commits, with a record in the log buffer.
use cscc_db.Base.{[]}
use cscc_db.Transaction.Locks.Tests.{holding}
use cscc_db.Log.Tests.{fresh}
use cscc_db.Transaction.Commit.{Session}

abbrev start : Session
start = record { locks = holding; log = fresh; so_far_lsn = 4; write_set = [] }
