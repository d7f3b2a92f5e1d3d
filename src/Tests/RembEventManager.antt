-- ===== src/Tests/RembEventManager.antt =====
-- kmsutils.c, `RembEventManager`, with one receiver at 500 kbps and then another.
use kms_core.Prelude.{refl, inl, inr, true, [], ◌∷◌, arith}
use kms_core.RembEventManager.{Table, Manager, update_min, remb_event, remb_probe, get_min}
use kms_core.RembEventManager.Minimum.{IsValid, update_min-IsValid}
use kms_core.RembEventManager.Freshness.{Answers, get_min-Answers, Notifies, remb_probe-Notifies}

abbrev one_entry : Table
one_entry = record { key = 17; value = record { bitrate = 500000; ts = 20000000000 } } ∷ []

abbrev one_receiver : Manager
one_receiver = record {
  remb_min = 500000;
  remb_hash = one_entry;
  oldest_remb_time = 20000000000;
  clear_interval = 10000000000;
  callback = true;
}

one_receiver-IsValid : IsValid one_receiver 21000000000
one_receiver-IsValid = record {
  positive = (omega arith, tt);
  least = inl (inr ((omega arith, tt), inl refl));
  aged = inr ((omega arith, tt), omega arith);
  past = (omega arith, tt);
}

update_min-IsValid_example :
    IsValid (update_min one_receiver 900000 23 21000000000 21000000001 21000000002).0 21000000001
update_min-IsValid_example =
    update_min-IsValid one_receiver 21000000000 900000 23 21000000000 21000000001
      one_receiver-IsValid (omega arith) (omega arith) 21000000002

get_min-Answers_example : Answers one_receiver 21000000000 31000000000 31000000001
get_min-Answers_example =
    get_min-Answers one_receiver 21000000000 31000000000 31000000001 one_receiver-IsValid
      (omega arith) (omega arith) (omega arith) (omega arith)

remb_probe-Notifies_example :
    Notifies one_receiver
      (remb_probe one_receiver (remb_event 400000 23) 21000000000 21000000001 21000000002).0
      (remb_probe one_receiver (remb_event 400000 23) 21000000000 21000000001 21000000002).2
    × Notifies one_receiver
        (get_min one_receiver 21000000000 21000000002).0
        (get_min one_receiver 21000000000 21000000002).2
remb_probe-Notifies_example =
    remb_probe-Notifies one_receiver (remb_event 400000 23) 21000000000 21000000001 21000000002
