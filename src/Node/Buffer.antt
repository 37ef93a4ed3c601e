-- ===== src/Node/Buffer.antt =====
-- app/engine/sparkplug.c: the ring of the samples that wait for a host, and the counters.
use event_engine_acap.Prelude.{
  ℕ, ◌+◌, ◌%◌, Bool, true, ◌&&◌, ltb, if◌then◌else◌, [], Str, snprintf, set, get_or,
}
use event_engine_acap.Node.State.{
  spb_history_max, spb_value_len, Sample, Node, is_set, MsgType, ndata, ddata,
}

abbrev pub no_sample : Sample
no_sample = record { def_idx = 0; value = []; ts = 0 }

-- The sample of age `k`, the oldest first.
abbrev pub sample_at : Node → ℕ → Sample
sample_at n k = get_or n.history ((n.hist_head + k) % spb_history_max) no_sample

abbrev pub emptied : Node → Node
emptied n = record n { hist_head = 0; hist_count = 0 }

abbrev pub appended : Sample → Node → Node
appended s n = record n {
  history = set n.history ((n.hist_head + n.hist_count) % spb_history_max) s;
  hist_count = n.hist_count + 1;
}

-- Full: drop the oldest.
abbrev pub overwritten : Sample → Node → Node
overwritten s n = record n {
  history = set n.history n.hist_head s;
  hist_head = (n.hist_head + 1) % spb_history_max;
}

abbrev pub taken : ℕ → Str → ℕ → Sample
taken def_idx value ts = record { def_idx = def_idx; value = snprintf spb_value_len value; ts = ts }

unfoldable pub buffer_sample : ℕ → Str → ℕ → Node → Node
buffer_sample def_idx value ts n =
    if ltb n.hist_count spb_history_max
    then appended (taken def_idx value ts) n
    else overwritten (taken def_idx value ts) n

-- `seq = (uint8_t)((seq + 1) & 0xFF)`
abbrev pub seq_taken : Node → Node
seq_taken n = record n { seq = (n.seq + 1) % 256 }

abbrev pub born : ℕ → Node → Node
born ts n = record n { birth_sent = true; last_birth_ms = ts }

-- `device_id[0] ? "DDATA" : "NDATA"`
abbrev pub data_type : Node → MsgType
data_type n = if is_set n.device_id then ddata else ndata

-- `MQTT_Is_Connected()` is an argument. The result is `ok`.
abbrev pub can_send : Bool → Node → Bool
can_send connected n = (n.birth_sent && n.host_online) && connected

abbrev pub counted : Bool → Node → Node
counted ok n = if ok then record n { data_published = n.data_published + 1 } else n
