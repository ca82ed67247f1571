-- ===== src/Examples/Queue.antt =====
-- Two operations of a device; the first is done by an interruption with device end.
use hvf.Base.{◌≡◌, refl, List, [], ◌∷◌, ◌++◌, Option, none, some, false}
use hvf.Errno.{success, eio}
use hvf.Nucleus.Io.{
  Io, Interrupt, start_next, submit_io, io_int_handler, cpu_initiated_io, op_err, is_eagain,
  default_io_handler,
}
use hvf.Nucleus.Io.Fifo.{
  Event, submitted, interrupted, run, step, finished, waiting, entered, io_in_order,
}

abbrev idle_device : Io
idle_device = record {
  ops = λ op. record { param = 0; err = success; done = false; handler = false };
  q_out = [];
  q_cur = none;
  attention = 0;
  op_id_counter = 0;
}

abbrev device_end : Interrupt
device_end = record {
  int_param = 1;
  tested = success;
  dev_status = 4;
  handled = success;
  started = eio;
}

abbrev events : List Event
events = submitted 50 success ∷ submitted 60 success ∷ interrupted device_end ∷ []

abbrev state_of : Io → Option Io → Io
state_of s none = s
state_of s (some s') = s'

io_in_order_example :
    finished events idle_device ++ waiting (state_of idle_device (run events idle_device))
    ≡ waiting idle_device ++ entered events
unfolding run step submit_io start_next io_int_handler cpu_initiated_io op_err is_eagain
    default_io_handler
io_in_order_example =
    io_in_order events idle_device (state_of idle_device (run events idle_device)) refl

abbrev started : Io
started = submit_io 50 success idle_device
