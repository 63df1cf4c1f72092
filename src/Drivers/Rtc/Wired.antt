-- ===== src/Drivers/Rtc/Wired.antt =====
-- The clock behind the device switch and the I2C driver.
use pascal_scheduler.Prelude.{ℕ, ◌^◌, ◌<◌, ◌≡◌, ap, ◌∙◌, Option, some, ◌>>=◌, arith}
use pascal_scheduler.Prelude.Word.{add32, sub32}
use pascal_scheduler.Dev.{Vnode, Machine, DevOps, dev_i2c, dev_write}
use pascal_scheduler.Drivers.Usic.{Usic}
use pascal_scheduler.Drivers.I2c.{Master, i2c, begin_write, receive_to}
use pascal_scheduler.Drivers.Rtc.Times.{Ended, selected}
use pascal_scheduler.Drivers.Rtc.Ds1307.{
  reading, Clock, on_start_write, on_start_read, on_stop, on_bytes, Attached,
}
use pascal_scheduler.Drivers.Rtc.Ds1307.Transfer.{
  Fetched, begin_write-view, send_from-view, receive_to-Fetched, usic_i2c_write-run,
}

module _ {H : Type 0} (usic : Usic H) (master : Master H) (polls : ℕ) (view : H → Clock)
    (bus : Attached usic master polls view) where
  -- A write to the clock, from the device switch on.
  record Wrote (n p : ℕ) (v : Vnode) (m : Machine H) (result : Option (ℕ × Vnode × Machine H))
      : Type 0 where
    ended : Ended (selected v) m n result
    shown :
        view ended.after ≡ on_stop (on_bytes n m.memory p (on_start_write 208 (view m.hardware)))

  module _ (config fuel : ℕ) (devices : ℕ → DevOps H)
      (here : devices dev_i2c ≡ i2c usic master polls config) where
    at_driver : (v : Vnode) → v.dev_id ≡ dev_i2c → devices v.dev_id ≡ i2c usic master polls config
    at_driver v e = ap devices e ∙ here

    dev_write-Wrote :
        (n p : ℕ) (v : Vnode) (m : Machine H)
        → n < 2 ^ 31
        → v.dev_id ≡ dev_i2c
        → Wrote n p v m (dev_write devices p n (selected v) m)
    unfolding dev_write i2c
    dev_write-Wrote n p v m small e =
        let (h, sent, seen) =
          send_from-view usic master polls view bus n p m.memory
            (begin_write usic master polls 208 m.hardware) in
        record {
          ended = record {
            after = master.stop h;
            returns =
                rw
                  (
                    at_driver v e,
                    usic_i2c_write-run usic master polls view bus n p (selected v) m small sent,
                  )
                  (ap (λ (c : ℕ). some (c, selected v, record m { hardware = master.stop h }))
                    (omega (arith, small)));
          };
          shown =
              bus.stops h
              ∙ ap on_stop (
                  seen
                  ∙ ap (on_bytes n m.memory p)
                      (begin_write-view usic master polls view bus 208 m.hardware));
        }

    asked : Machine H → Machine H
    asked m = record m { hardware = master.start_read 208 m.hardware }

    asked-view :
        (m : Machine H) → view (asked m).hardware ≡ record (view m.hardware) { phase = reading }
    unfolding asked on_start_read
    asked-view m = bus.starts_read 208 m.hardware

    bytes_asked :
        (p : ℕ) (m : Machine H)
        → Fetched usic master polls view bus 7
            (add32 p (sub32 7 7))
            (asked m)
            (receive_to usic master polls 7 (add32 p (sub32 7 7)) (asked m))
    bytes_asked p m =
        receive_to-Fetched usic master polls view bus 7 (add32 p (sub32 7 7)) (asked m)
          (ap (λ (c : Clock). c.phase) (asked-view m))

    behind : ℕ → Machine H → Machine H
    behind p m = record (bytes_asked p m).after {
      hardware = master.stop (bytes_asked p m).after.hardware;
    }

    writes :
        (n p : ℕ) (v : Vnode) (m : Machine H)
        → n < 2 ^ 31
        → v.dev_id ≡ dev_i2c
        → Ended (selected v) m n (dev_write devices p n (selected v) m)
    writes n p v m small e = (dev_write-Wrote n p v m small e).ended
