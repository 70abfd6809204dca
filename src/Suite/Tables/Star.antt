-- ===== src/Suite/Tables/Star.antt =====
-- src/tst/psmqd.c: the tables of psmqd_topic_star_wildcard.
use psmq.Prelude.{ℕ, List, [], ◌∷◌, ◌++◌}
use psmq.CString.{Bytes}
use psmq.Suite.{Row}
use psmq.Suite.Tables.{codes, row, from_size}

abbrev pub topics_first : List Bytes
topics_first = codes "/*" ∷ []

abbrev pub topics_from_5 : List Bytes
topics_from_5 = codes "/a/*" ∷ []

abbrev pub topics_from_7 : List Bytes
topics_from_7 = codes "/a/b/*" ∷ []

abbrev pub sub_topics : (msg_max max_clients : ℕ) → List Bytes
sub_topics msg_max max_clients =
    topics_first
    ++ from_size msg_max max_clients 5 3 topics_from_5
    ++ from_size msg_max max_clients 7 4 topics_from_7

abbrev pub msgs_first : List Row
msgs_first = row "/a" (0 ∷ []) ∷ row "/b" (0 ∷ []) ∷ row "/c" (0 ∷ []) ∷ []

abbrev pub msgs_from_5 : List Row
msgs_from_5 =
    row "/aab" (0 ∷ [])
    ∷ row "/a/a" (0 ∷ 1 ∷ [])
    ∷ row "/a/b" (0 ∷ 1 ∷ [])
    ∷ row "/a/c" (0 ∷ 1 ∷ [])
    ∷ row "/b/a" (0 ∷ [])
    ∷ row "/b/b" (0 ∷ [])
    ∷ row "/b/c" (0 ∷ [])
    ∷ row "/c/a" (0 ∷ [])
    ∷ row "/c/b" (0 ∷ [])
    ∷ row "/c/c" (0 ∷ [])
    ∷ []

abbrev pub msgs_from_7 : List Row
msgs_from_7 =
    row "/a/bbb" (0 ∷ 1 ∷ [])
    ∷ row "/aa/b" (0 ∷ [])
    ∷ row "/aa/bb" (0 ∷ [])
    ∷ row "/a/a/a" (0 ∷ 1 ∷ [])
    ∷ row "/a/a/b" (0 ∷ 1 ∷ [])
    ∷ row "/a/a/c" (0 ∷ 1 ∷ [])
    ∷ row "/a/b/a" (0 ∷ 1 ∷ 2 ∷ [])
    ∷ row "/a/b/b" (0 ∷ 1 ∷ 2 ∷ [])
    ∷ row "/a/b/c" (0 ∷ 1 ∷ 2 ∷ [])
    ∷ row "/a/c/a" (0 ∷ 1 ∷ [])
    ∷ row "/a/c/b" (0 ∷ 1 ∷ [])
    ∷ row "/a/c/c" (0 ∷ 1 ∷ [])
    ∷ row "/b/a/a" (0 ∷ [])
    ∷ row "/b/a/b" (0 ∷ [])
    ∷ row "/b/a/c" (0 ∷ [])
    ∷ row "/b/b/a" (0 ∷ [])
    ∷ row "/b/b/b" (0 ∷ [])
    ∷ row "/b/b/c" (0 ∷ [])
    ∷ row "/b/c/a" (0 ∷ [])
    ∷ row "/b/c/b" (0 ∷ [])
    ∷ row "/b/c/c" (0 ∷ [])
    ∷ row "/c/a/a" (0 ∷ [])
    ∷ row "/c/a/b" (0 ∷ [])
    ∷ row "/c/a/c" (0 ∷ [])
    ∷ row "/c/b/a" (0 ∷ [])
    ∷ row "/c/b/b" (0 ∷ [])
    ∷ row "/c/b/c" (0 ∷ [])
    ∷ row "/c/c/a" (0 ∷ [])
    ∷ row "/c/c/b" (0 ∷ [])
    ∷ row "/c/c/c" (0 ∷ [])
    ∷ []

abbrev pub msgs : (msg_max max_clients : ℕ) → List Row
msgs msg_max max_clients =
    msgs_first
    ++ from_size msg_max max_clients 5 3 msgs_from_5
    ++ from_size msg_max max_clients 7 4 msgs_from_7
