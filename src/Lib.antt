-- ===== src/Lib.antt =====
-- Verification of psmq: a publish/subscribe broker (psmqd) and its client library over POSIX message
-- queues.
--
-- Clients and the broker are processes that exchange one struct, `psmq_msg`, over queues: each client
-- sends requests to the broker's control queue, and the broker answers, and passes publications on,
-- over a queue of each client. The broker's state is an array of slots, one for a connected client,
-- with the client's queue, its subscriptions, a counter of messages it missed and a timeout.
--
-- What models what, with paths from the repository's root:
-- - Prelude: shared names, lists over native numbers, Boolean tests.
-- - CString: byte buffers and the functions of string.h that the sources use. A string is the list of
--   its bytes without the terminator. CString/Strtok is strtok_r(), CString/Copy copies into zeroed
--   buffers.
-- - Errno: errno values, and the result of functions that return 0 or -1 with errno.
-- - Time: psmq-common.h and utils.c, psmq_ms_to_tp.
-- - Message: inc/psmq.h.in and psmq-common.h: the message, its macros, and what goes over a queue.
-- - Platform: the calls that the broker makes of its operating system. What they answer is a parameter,
--   which may depend on all calls before; so are PSMQ_MSG_MAX and PSMQ_MAX_CLIENTS.
-- - Topic: src/broker.c, psmqd_broker_topic_matches, and the guards of psmqd_broker_subscribe.
--   Topic/Matching has the relation that the first decides, Topic/Path the topics that the second lets
--   through.
-- - TopicList: src/topic-list.c. psmqd_tl_add and psmqd_tl_delete on the list of topics are tl_add and
--   tl_delete, which the broker's model uses; TopicList/Nodes has all its functions on the nodes and
--   pointers of TopicList/Heap, a function `psmqd_tl_x` as `x`, and TopicList/Nodes/Chain the relation
--   between the two. TopicList/Suite is its tests, tst/topic-list.c, on these nodes.
-- - Broker: src/broker.c. Broker/State has the globals and the commands over them; Broker/Reply the
--   psmqd_broker_reply functions and psmqd_broker_get_free_client; Broker/Requests psmqd_broker_open,
--   subscribe, unsubscribe and close; Broker/Publish, Broker/Ioctl, Broker/Loop and Broker/Session the
--   functions of those names. A function `psmqd_broker_x` is `broker_x`. Broker/Valid has the
--   invariant, Broker/Safety that each request keeps it, Broker/Effects what each request does.
--   Broker/Memory is the lists of topics of all clients on one memory. There psmqd_broker_cleanup
--   passes over the slots without a queue, as in the source, and leaves their lists in memory.
--   Broker/Spec is the abstract broker: slots that are free or taken, with a bag of topics each
--   (TopicList/Bag, a quotient), and the steps that requests make.
-- - Psmqd: src/psmqd.c, main; Psmqd/Args: src/cfg.c, psmqd_cfg_init and cfg_parse_args. Psmqd/Runs is
--   the program from its start to its end.
-- - Api: lib/psmq.c. A function `psmq_x` is `x`; Api/Accepted sets what it sends against what the broker
--   does with it.
-- - Pub: src/psmq-pub.c, publish, send_stdin and send_stdin_binary; Pub/Program: its main. Sub:
--   src/psmq-sub.c, is_payload_binary and on_receive; Sub/Program: its main and psmq_sub_connect;
--   Sub/Subscribes: its subscription through the broker and back; Sub/Delivered: a string from a
--   publisher through the broker to a subscriber.
-- - Zephyr: zephyr/psmq_shell.c, the shell's commands; Zephyr/Memory the memory that they take.
-- - Suite: tst/psmqd.c, psmqd_wildard_test, with psmqt_receive_expect of tst/psmqd-startup.c, run on the
--   models of the broker and of the client library. A client's calls are answered by what the broker has
--   put on its queue by then; Suite/Connects is the loop that connects the clients and the whole test,
--   Suite/Tables the tables of psmqd_topic_plus_wildcard, star and mixed.
-- - Tests: the theorems at concrete inputs.
--
-- Bounds and fuel. Every read and write of a buffer is checked, and a fault is the value `none`; so is the
-- strlen() of a received message without a NUL, in the broker's main loop and in the receiving loop of
-- psmq-sub. psmqt_receive_expect of the tests takes the messages that it receives to have one. The
-- token loop of psmqd_broker_topic_matches runs on as many rounds as the published topic has bytes, and
-- two more, which is enough since each round takes a token off it. The main loop is a function of
-- the list of what its waits give, and the client's wait for the answer to an open request is given the
-- number of messages that it may receive; both say so if the end is not reached. An unsigned char
-- counter and the unsigned short `paylen` wrap; a size_t is taken to have 64 bits.
--
-- The loops over the nodes of a list of topics run on rounds, of which one more than the list has nodes is
-- enough. The receiving loop of src/psmq-sub.c is a function of its rounds, as the main loop is of its
-- events, and the loops over the standard input are functions of what fgets() and read() give.
--
-- Not modelled: the tests of tst/psmqd.c other than those of wildcards, which use threads, full queues
-- or processes, and how tst/psmqd-startup.c starts these; tst/psmq.c and cfg.c, which test the arguments
-- of single calls; mtest.h, which is another project's; logging, and what the programs print. Message
-- queues, malloc(), the clock, isprint(), isspace(), strtol() and atoi() are parameters; what getopt(),
-- fgets() and read() give is a list. In Suite, where the broker and its clients run together, what was
-- sent to a queue waits in it, and is received in the order of the sends, as POSIX has it for messages of
-- one priority.
pub mod Prelude
pub mod CString
pub mod Topic
pub mod Time
pub mod Errno
pub mod Message
pub mod Platform
pub mod TopicList
pub mod Broker
pub mod Psmqd
pub mod Api
pub mod Pub
pub mod Sub
pub mod Zephyr
pub mod Suite
pub mod Tests
