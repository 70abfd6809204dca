-- ===== src/Suite/Tables/Mixed.antt =====
-- src/tst/psmqd.c: the tables of psmqd_topic_mixed_wildcard.
use psmq.Prelude.{ℕ, List, [], ◌∷◌, ◌++◌}
use psmq.CString.{Bytes}
use psmq.Suite.{Row}
use psmq.Suite.Tables.{codes, row, from_size}

abbrev pub topics_from_5 : List Bytes
topics_from_5 = codes "/+/*" ∷ []

abbrev pub topics_from_7 : List Bytes
topics_from_7 = codes "/a/+/*" ∷ codes "/+/b/*" ∷ codes "/+/+/*" ∷ []

abbrev pub sub_topics : (msg_max max_clients : ℕ) → List Bytes
sub_topics msg_max max_clients =
    from_size msg_max max_clients 5 2 topics_from_5
    ++ from_size msg_max max_clients 7 5 topics_from_7

abbrev pub msgs_first : List Row
msgs_first = row "/a" [] ∷ row "/b" [] ∷ row "/c" [] ∷ []

abbrev pub msgs_from_5 : List Row
msgs_from_5 =
    row "/aab" []
    ∷ row "/a/a" (0 ∷ [])
    ∷ row "/a/b" (0 ∷ [])
    ∷ row "/a/c" (0 ∷ [])
    ∷ row "/b/a" (0 ∷ [])
    ∷ row "/b/b" (0 ∷ [])
    ∷ row "/b/c" (0 ∷ [])
    ∷ row "/c/a" (0 ∷ [])
    ∷ row "/c/b" (0 ∷ [])
    ∷ row "/c/c" (0 ∷ [])
    ∷ []

abbrev pub msgs_from_7 : List Row
msgs_from_7 =
    row "/a/bbb" (0 ∷ [])
    ∷ row "/aa/b" (0 ∷ [])
    ∷ row "/aa/bb" (0 ∷ [])
    ∷ row "/a/a/a" (0 ∷ 1 ∷ 3 ∷ [])
    ∷ row "/a/a/b" (0 ∷ 1 ∷ 3 ∷ [])
    ∷ row "/a/a/c" (0 ∷ 1 ∷ 3 ∷ [])
    ∷ row "/a/b/a" (0 ∷ 1 ∷ 2 ∷ 3 ∷ [])
    ∷ row "/a/b/b" (0 ∷ 1 ∷ 2 ∷ 3 ∷ [])
    ∷ row "/a/b/c" (0 ∷ 1 ∷ 2 ∷ 3 ∷ [])
    ∷ row "/a/c/a" (0 ∷ 1 ∷ 3 ∷ [])
    ∷ row "/a/c/b" (0 ∷ 1 ∷ 3 ∷ [])
    ∷ row "/a/c/c" (0 ∷ 1 ∷ 3 ∷ [])
    ∷ row "/b/a/a" (0 ∷ 3 ∷ [])
    ∷ row "/b/a/b" (0 ∷ 3 ∷ [])
    ∷ row "/b/a/c" (0 ∷ 3 ∷ [])
    ∷ row "/b/b/a" (0 ∷ 2 ∷ 3 ∷ [])
    ∷ row "/b/b/b" (0 ∷ 2 ∷ 3 ∷ [])
    ∷ row "/b/b/c" (0 ∷ 2 ∷ 3 ∷ [])
    ∷ row "/b/c/a" (0 ∷ 3 ∷ [])
    ∷ row "/b/c/b" (0 ∷ 3 ∷ [])
    ∷ row "/b/c/c" (0 ∷ 3 ∷ [])
    ∷ row "/c/a/a" (0 ∷ 3 ∷ [])
    ∷ row "/c/a/b" (0 ∷ 3 ∷ [])
    ∷ row "/c/a/c" (0 ∷ 3 ∷ [])
    ∷ row "/c/b/a" (0 ∷ 2 ∷ 3 ∷ [])
    ∷ row "/c/b/b" (0 ∷ 2 ∷ 3 ∷ [])
    ∷ row "/c/b/c" (0 ∷ 2 ∷ 3 ∷ [])
    ∷ row "/c/c/a" (0 ∷ 3 ∷ [])
    ∷ row "/c/c/b" (0 ∷ 3 ∷ [])
    ∷ row "/c/c/c" (0 ∷ 3 ∷ [])
    ∷ []

abbrev pub msgs_from_9 : List Row
msgs_from_9 =
    row "/a/bbb" (0 ∷ [])
    ∷ row "/aa/b" (0 ∷ [])
    ∷ row "/aa/bb" (0 ∷ [])
    ∷ row "/a/a/a/d" (0 ∷ 1 ∷ 3 ∷ [])
    ∷ row "/a/a/b/d" (0 ∷ 1 ∷ 3 ∷ [])
    ∷ row "/a/a/c/d" (0 ∷ 1 ∷ 3 ∷ [])
    ∷ row "/a/b/a/d" (0 ∷ 1 ∷ 2 ∷ 3 ∷ [])
    ∷ row "/a/b/b/d" (0 ∷ 1 ∷ 2 ∷ 3 ∷ [])
    ∷ row "/a/b/c/d" (0 ∷ 1 ∷ 2 ∷ 3 ∷ [])
    ∷ row "/a/c/a/d" (0 ∷ 1 ∷ 3 ∷ [])
    ∷ row "/a/c/b/d" (0 ∷ 1 ∷ 3 ∷ [])
    ∷ row "/a/c/c/d" (0 ∷ 1 ∷ 3 ∷ [])
    ∷ row "/b/a/a/d" (0 ∷ 3 ∷ [])
    ∷ row "/b/a/b/d" (0 ∷ 3 ∷ [])
    ∷ row "/b/a/c/d" (0 ∷ 3 ∷ [])
    ∷ row "/b/b/a/d" (0 ∷ 2 ∷ 3 ∷ [])
    ∷ row "/b/b/b/d" (0 ∷ 2 ∷ 3 ∷ [])
    ∷ row "/b/b/c/d" (0 ∷ 2 ∷ 3 ∷ [])
    ∷ row "/b/c/a/d" (0 ∷ 3 ∷ [])
    ∷ row "/b/c/b/d" (0 ∷ 3 ∷ [])
    ∷ row "/b/c/c/d" (0 ∷ 3 ∷ [])
    ∷ row "/c/a/a/d" (0 ∷ 3 ∷ [])
    ∷ row "/c/a/b/d" (0 ∷ 3 ∷ [])
    ∷ row "/c/a/c/d" (0 ∷ 3 ∷ [])
    ∷ row "/c/b/a/d" (0 ∷ 2 ∷ 3 ∷ [])
    ∷ row "/c/b/b/d" (0 ∷ 2 ∷ 3 ∷ [])
    ∷ row "/c/b/c/d" (0 ∷ 2 ∷ 3 ∷ [])
    ∷ row "/c/c/a/d" (0 ∷ 3 ∷ [])
    ∷ row "/c/c/b/d" (0 ∷ 3 ∷ [])
    ∷ row "/c/c/c/d" (0 ∷ 3 ∷ [])
    ∷ []

abbrev pub msgs : (msg_max max_clients : ℕ) → List Row
msgs msg_max max_clients =
    msgs_first
    ++ from_size msg_max max_clients 5 2 msgs_from_5
    ++ from_size msg_max max_clients 7 5 msgs_from_7
    ++ from_size msg_max max_clients 9 5 msgs_from_9
