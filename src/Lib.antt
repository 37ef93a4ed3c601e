-- ===== src/Lib.antt =====
-- The verification library of Event Engine, the rule engine that runs on a camera. Rules react to
-- triggers, are held back by checks and conditions, and run actions; what they do is logged. The
-- library models the parts of the C program that hold its own logic, and proves what they promise.
--
-- The parts, and how they interact.
--
--   RuleEngine  app/engine/rule_engine.c. `Rule` has the record `Rule` and `rule_from_json`. `Gates`
--     has the checks of `on_trigger_fired` in their order, each a function that passes the rule on or
--     blocks it for a reason; `Dispatch` has `on_trigger_fired`, `RuleEngine_Fire`, `RuleEngine_Tick`
--     and the siren check; `Store` has the operations of the API, and `Listing` the rules as
--     JSON. An operation takes the rules and
--     returns the rules, its result and the calls that it makes of other parts, in their order
--     (`Effect`, `StoreEffect`). What it asks of app/engine/conditions.c and app/engine/triggers.c is
--     the record `Env`, and the answers of `time` are the record `Times`, one field per call.
--     `Verdict` says what each check asks of a rule, `Judged`, `Triggered` and `Firing` what a trigger
--     does, `Checks`, `Steps` and `Runs` what a rule does over any sequence of triggers and ticks;
--     `Ids`, `Edits` and `LongIds` have the operations of the store, and `Fields` and `Saved` its
--     file. A tick in a sequence is the loop of `RuleEngine_Tick` over the rules; the firings that
--     follow it are triggers of their own. `Subscribe` has the generation of ids and the idle
--     callbacks.
--   Conditions  app/engine/conditions.c. `Evaluate` has the conditions on the time, on counters and on
--     variables, and the evaluation of all conditions of a rule, which are the first two fields of
--     `Env`; the answers of the other conditions are the record `Answers`. `TriggerData` has one of
--     these, the condition on a field of the event: `strtod`, "%g" and the expansion of templates in
--     app/engine/actions.c are its record `Texts`. The conditions that ask the device or another host
--     stay answers. `Laws` says what an evaluation decides, `Comparisons` what a field's comparison
--     does, with its operators in `Operators` and its search in `Occurs`.
--   EventLog  app/engine/event_log.c. `Ring` has the state (`entries`, `head`, `count`,
--     `persist_dirty`) and the operations that change it, `Json` the listings and `EventLog_Persist`,
--     `Load` has `EventLog_Load`. `Recent` has the abstract view, the entries from the newest on, that
--     the operations are proved against. The rule engine appends an entry for each trigger.
--   Variables  app/engine/variables.c. `Store` has the operations, `Persist` the file, `Laws`,
--     `Operations` and `Runs` the proofs. Doubles and the libc functions on them are the record
--     `Doubles`.
--   Sparkplug  app/engine/sparkplug_pb.c. `Buffer` has `SPB_Buf` and the protobuf writers, `Wire` the
--     readers, `Metric` the datatypes and `SPB_Metric`, `Encode` has `SPB_Encode`, `Decode` has
--     `decode_metric`, and `Payload` has `SPB_Decode`, which returns the calls of its handler with its
--     result. `Layout` says which bytes a
--     payload has, and `Shown` what a handler is to be given; `Writers`, `Written`, `Varint`, `Fields`,
--     `Metrics` and `RoundTrip` lead from the one to the other. Floats, doubles and the libc functions
--     that read and print numbers are the record `Numbers`, and `realloc` is a test on the size.
--   Mqtt  app/engine/mqtt_client.c. `Buffer`, `Length` and `Packets` build the packets, `Receive` is the
--     receive loop over the bytes that arrive, `Inflight` has the QoS 1 messages that wait for their
--     acknowledgment, `Subscriptions` the topic filters with the number of their owners, `Client`
--     publishing, the will and new settings, and `Worker` which broker is tried and how long the client
--     waits. `Layout` and `Requests` say which bytes a packet has, `Delivery` what arrives of what is
--     published, `Retries` and `GivenUp` what becomes of a QoS 1 message, `Tracking` which slot
--     such a message takes, `Owners` who holds a filter, and `Identifiers` and `Brokers` have the
--     rest. Memory is a test on the size; the answers of sends are arguments. The sockets, TLS and
--     the SOCKS5 handshake are not modelled.
--   Modbus  app/engine/modbus_pool.c. `Frames` has the checksum, the frames and the answers, `Requests`
--     the operations on registers and coils, and `Pool` the connections by their keys. What a line
--     does is the record `Line`. `Replies` says which answers are accepted, `Registers` what a read or a
--     write makes of one, and `Slots` what the pool returns.
--   Node  app/engine/sparkplug.c. `State` has the variables of the edge node and its topics,
--     `Buffer` the ring of samples, `Publishing` the births, the replay and the data, and `Sessions`
--     what happens on the events of the MQTT client, on the host's word, and for the rules. A message
--     is a `Call` with its number and its metrics; whether one is encoded and sent is an argument for
--     its type, the same within an event, and so is whether the client is connected. `Inbound` has the
--     events of the device, with the texts of their fields, and the commands of hosts. `Host` is what
--     a host asks of a node, `Agreement`, `Accepted`, `Items`, `Steps` and `Runs` show that the calls
--     meet it, `History` and `Replay` follow the samples, and `Topics` says what the topic of a
--     command covers. `Settings` and `Configure` have `Sparkplug_Configure`: the settings are a record
--     with what is read of them, a metric's source is the path of its topics, and the subscriptions to
--     device events are one request. `Registry` and `Filters` have its list of metrics and its
--     subscriptions.
--   Scheduler  app/engine/scheduler.c. `Entry` has the table of schedules and
--     `Scheduler_Unregister_Rule`, `Cron` and `Parse` have the parser of cron expressions, and `Tick`
--     has `Scheduler_Tick`; what it reads of the clock is the record `Clock`, and the result of
--     `compute_solar_event` is an argument. `Firings` and `Times` say at which ticks an entry fires,
--     `Unregister` what a removal leaves. `Register` has `Scheduler_Register`, with `sscanf` and the
--     conversion of minutes as arguments and without the coordinates and the event of the sun, and
--     `Registered` what it leaves. `Ranges`, `Scanned`, `Fields`, `Masks` and `Expressions` say what
--     the parser finds in the text of an expression, and `CronRules` takes this to the ticks.
--   Table  the array that is searched by a string key and loses an entry by moving the last one into
--     the gap, as variables.c and rule_engine.c keep theirs.
--   Cjson  the interface of the JSON library app/cJSON.c, `Cjson`, with what its documentation says as
--     `CjsonLaws`, and an instance that keeps the laws, for running the model.
--   Prelude  tests, lists, strings and integers over the native numbers. A C string is the list of
--     its bytes without the final zero; `snprintf n s` keeps what fits a buffer of n bytes.
--
-- Bounds. The sizes of arrays and buffers are those of the source: 500 log entries, 256 rules, 256
-- variables, 16 stamps, ids of 36 bytes and names of 127. An array in use is a list whose length is the
-- counter. Times are natural numbers of seconds. The counters of entries and firings, and the lengths
-- of buffers, are not wrapped at 2^31. The loops over an array are recursion on the number of rounds
-- left. The loops of the codec over bytes are bounded by the number of bytes, and the loop that grows a
-- buffer by the size it needs, which is enough. The loops of the cron parser take
-- their bound as an argument, since one of them need not end; more rounds than the largest number of a
-- field are enough for an expression whose parts are well formed.
--
-- Not modelled: the locks, since each operation runs under one from its start to its end, except
-- that Sparkplug_On_MQTT_Message and Sparkplug_Configure let go of theirs in between, where the
-- model has nothing else happen; sockets, files and glib's idle calls, which show as the calls and
-- the file contents an operation returns; the logging to syslog; freeing of memory; and
-- app/engine/triggers.c, app/engine/actions.c, app/engine/alert_stream.c, app/main.c and the
-- wrapper app/ACAP.c.
pub mod Cjson
pub mod Conditions
pub mod EventLog
pub mod Modbus
pub mod Mqtt
pub mod Node
pub mod Prelude
pub mod RuleEngine
pub mod Scheduler
pub mod Sparkplug
pub mod Table
pub mod Variables
