-- ===== src/Client/Log.antt =====
-- What a log of calls holds: the time slept, the updates, the calls that write.
use unbind_operator.Base.{ℕ, suc, ◌+◌, List, [], ◌∷◌}
use unbind_operator.Client.{Call, getting, updating, updating_status, sleeping}

-- The seconds slept
abbrev pub slept : List Call → ℕ
slept [] = 0
slept (sleeping n ∷ log) = n + slept log
slept (_ ∷ log) = slept log

-- The number of updates
abbrev pub updates : List Call → ℕ
updates [] = 0
updates (updating k o ∷ log) = suc (updates log)
updates (_ ∷ log) = updates log

-- The number of calls that ask the server to change something
abbrev pub writes : List Call → ℕ
writes [] = 0
writes (getting k namespace name ∷ log) = writes log
writes (sleeping n ∷ log) = writes log
writes (_ ∷ log) = suc (writes log)

-- The number of status updates
abbrev pub status_updates : List Call → ℕ
status_updates [] = 0
status_updates (updating_status service ∷ log) = suc (status_updates log)
status_updates (_ ∷ log) = status_updates log
