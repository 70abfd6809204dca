-- ===== src/Suite/Tables/Plus.antt =====
-- src/tst/psmqd.c: the tables of psmqd_topic_plus_wildcard.
use psmq.Prelude.{ℕ, List, [], ◌∷◌, ◌++◌}
use psmq.CString.{Bytes}
use psmq.Suite.{Row}
use psmq.Suite.Tables.{codes, row, from_size}

abbrev pub topics_first : List Bytes
topics_first = codes "/+" ∷ []

abbrev pub topics_from_5 : List Bytes
topics_from_5 = codes "/a/+" ∷ codes "/+/b" ∷ codes "/+/+" ∷ []

abbrev pub topics_from_7 : List Bytes
topics_from_7 =
    codes "/a/b/+"
    ∷ codes "/a/+/c"
    ∷ codes "/a/+/+"
    ∷ codes "/+/b/c"
    ∷ codes "/+/b/+"
    ∷ codes "/+/+/c"
    ∷ codes "/+/+/+"
    ∷ []

abbrev pub sub_topics : (msg_max max_clients : ℕ) → List Bytes
sub_topics msg_max max_clients =
    topics_first
    ++ from_size msg_max max_clients 5 5 topics_from_5
    ++ from_size msg_max max_clients 7 12 topics_from_7

abbrev pub msgs_first : List Row
msgs_first = row "/a" (0 ∷ []) ∷ row "/b" (0 ∷ []) ∷ row "/c" (0 ∷ []) ∷ []

abbrev pub msgs_from_5 : List Row
msgs_from_5 =
    row "/aab" (0 ∷ [])
    ∷ row "/a/a" (1 ∷ 3 ∷ [])
    ∷ row "/a/b" (1 ∷ 2 ∷ 3 ∷ [])
    ∷ row "/a/c" (1 ∷ 3 ∷ [])
    ∷ row "/b/a" (3 ∷ [])
    ∷ row "/b/b" (2 ∷ 3 ∷ [])
    ∷ row "/b/c" (3 ∷ [])
    ∷ row "/c/a" (3 ∷ [])
    ∷ row "/c/b" (2 ∷ 3 ∷ [])
    ∷ row "/c/c" (3 ∷ [])
    ∷ []

abbrev pub msgs_from_7 : List Row
msgs_from_7 =
    row "/a/bbb" (1 ∷ 3 ∷ [])
    ∷ row "/aa/b" (2 ∷ 3 ∷ [])
    ∷ row "/aa/bb" (3 ∷ [])
    ∷ row "/a/a/a" (6 ∷ 10 ∷ [])
    ∷ row "/a/a/b" (6 ∷ 10 ∷ [])
    ∷ row "/a/a/c" (5 ∷ 6 ∷ 9 ∷ 10 ∷ [])
    ∷ row "/a/b/a" (4 ∷ 6 ∷ 8 ∷ 10 ∷ [])
    ∷ row "/a/b/b" (4 ∷ 6 ∷ 8 ∷ 10 ∷ [])
    ∷ row "/a/b/c" (4 ∷ 5 ∷ 6 ∷ 7 ∷ 8 ∷ 9 ∷ 10 ∷ [])
    ∷ row "/a/c/a" (6 ∷ 10 ∷ [])
    ∷ row "/a/c/b" (6 ∷ 10 ∷ [])
    ∷ row "/a/c/c" (5 ∷ 6 ∷ 9 ∷ 10 ∷ [])
    ∷ row "/b/a/a" (10 ∷ [])
    ∷ row "/b/a/b" (10 ∷ [])
    ∷ row "/b/a/c" (9 ∷ 10 ∷ [])
    ∷ row "/b/b/a" (8 ∷ 10 ∷ [])
    ∷ row "/b/b/b" (8 ∷ 10 ∷ [])
    ∷ row "/b/b/c" (7 ∷ 8 ∷ 9 ∷ 10 ∷ [])
    ∷ row "/b/c/a" (10 ∷ [])
    ∷ row "/b/c/b" (10 ∷ [])
    ∷ row "/b/c/c" (9 ∷ 10 ∷ [])
    ∷ row "/c/a/a" (10 ∷ [])
    ∷ row "/c/a/b" (10 ∷ [])
    ∷ row "/c/a/c" (9 ∷ 10 ∷ [])
    ∷ row "/c/b/a" (8 ∷ 10 ∷ [])
    ∷ row "/c/b/b" (8 ∷ 10 ∷ [])
    ∷ row "/c/b/c" (7 ∷ 8 ∷ 9 ∷ 10 ∷ [])
    ∷ row "/c/c/a" (10 ∷ [])
    ∷ row "/c/c/b" (10 ∷ [])
    ∷ row "/c/c/c" (9 ∷ 10 ∷ [])
    ∷ []

abbrev pub msgs : (msg_max max_clients : ℕ) → List Row
msgs msg_max max_clients =
    msgs_first
    ++ from_size msg_max max_clients 5 5 msgs_from_5
    ++ from_size msg_max max_clients 7 12 msgs_from_7
