-- ===== src/Scheduler/Dump.antt =====
-- src/scheduler/scheduler.cpp: `Scheduler::dump`.
use simple_http_server.Base.{ℕ, List, [], ◌∷◌, ◌++◌, Option, none, some, if◌then◌else◌}
use simple_http_server.Base.Bytes.{Bytes, codes, decimal}
use simple_http_server.Scheduler.{Scheduler}

-- A thread's number; -1 if it is not known.
abbrev pub id_text : Option ℕ → Bytes
id_text none = codes "-1"
id_text (some n) = decimal n

-- The loop over `m_threadIds`, behind its first turn.
unfoldable pub dump_rest : List (Option ℕ) → Bytes
dump_rest [] = []
dump_rest (i ∷ is) = codes ", " ++ (id_text i ++ dump_rest is)

unfoldable pub dump_ids : List (Option ℕ) → Bytes
unfolding dump_rest
dump_ids [] = []
dump_ids (i ∷ is) = id_text i ++ dump_rest is

unfoldable pub dump : Scheduler → Bytes → Bytes
unfolding decimal dump_ids
dump s os =
    os
    ++ (codes "[Scheduler name="
        ++ (s.name
            ++ (codes " size="
                ++ (decimal s.thread_count
                    ++ (codes " active_count="
                        ++ (decimal s.active_thread_count
                            ++ (codes " idle_count="
                                ++ (decimal s.idle_thread_count
                                    ++ (codes " stopping="
                                        ++ ((if s.is_stopping then codes "1" else codes "0")
                                            ++ (codes " ]\n    " ++ dump_ids s.thread_ids)))))))))))
