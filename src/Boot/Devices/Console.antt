-- ===== src/Boot/Devices/Console.antt =====
-- The console works once the devices are open.
use pascal_scheduler.Prelude.{
  ℕ, ◌+◌, ◌<◌, ◌≤◌, ◌≡◌, refl, sym, ap, ◌∙◌, List, [], ◌++◌, cells, Option, none, some, ◌>>=◌, ◌==◌,
  if◌then◌else◌,
}
use pascal_scheduler.Dev.{
  Vnode, Machine, DevOps, dev_i2c, dev_uart, dev_rtc, dev_open, uart_type, i2c_type, rtc_type,
}
use mathlib.Core.Path.{subst}
use pascal_scheduler.Drivers.Usic.{Usic, Transmits}
use pascal_scheduler.Drivers.Uart.{Call, uart}
use pascal_scheduler.Libc.Printf.{Layout, printf}
use pascal_scheduler.Libc.Printf.Plain.{Text, printf-sends_all}
use pascal_scheduler.Boot.Devices.{
  System, Platform, driver_map, prepare, open_uart, open_i2c, open_rtc, open_devices,
}

-- Opening the device ends, and changes no memory and not what has been sent.
pub record Opens {H : Type 0} (sent : H → List ℕ) (ops : DevOps H) : Type 0 where
  pub node : Vnode → Machine H → Vnode
  pub hardware : Vnode → Machine H → H
  pub opens :
      (v : Vnode) (m : Machine H)
      → ops.d_open v m ≡ some (0, node v m, record m { hardware = hardware v m })
  pub quiet : (v : Vnode) (m : Machine H) → sent (hardware v m) ≡ sent m.hardware

-- The system behind the openings: the drivers are mapped, and each of them has opened its node, in this order.
-- `prepared` is the hardware behind initPorts().
pub record Ready {H : Type 0} (sent : H → List ℕ) (ops i2c rtc : DevOps H)
    (uart_config1 i2c_config1 : ℕ) (prepared : H) (s : System H) (result : Option (System H))
    : Type 0 where
  pub after : System H
  pub first : Machine H
  pub second : Machine H
  pub opens_uart :
      ops.d_open
        (record s.uart_node { dev_type = uart_type; dev_id = dev_uart; data_ptr = uart_config1 })
        (record s.machine { hardware = prepared })
      ≡ some (0, after.uart_node, first)
  pub opens_i2c :
      i2c.d_open
        (record s.i2c_node { dev_type = i2c_type; dev_id = dev_i2c; data_ptr = i2c_config1 })
        first
      ≡ some (0, after.i2c_node, second)
  pub opens_rtc :
      rtc.d_open (record s.rtc_node { dev_type = rtc_type; dev_id = dev_rtc }) second
      ≡ some (0, after.rtc_node, after.machine)
  pub returns : result ≡ some after
  pub to_uart : after.devices dev_uart ≡ ops
  pub to_i2c : after.devices dev_i2c ≡ i2c
  pub to_rtc : after.devices dev_rtc ≡ rtc
  pub keeps : after.machine.memory ≡ s.machine.memory
  pub quiet : sent after.machine.hardware ≡ sent s.machine.hardware

module _ {H : Type 0} (platform : Platform H) (sent : H → List ℕ)
    (calm : (h : H) → sent (prepare platform h) ≡ sent h) (ops i2c rtc : DevOps H)
    (uart_config1 i2c_config1 : ℕ) (a : Opens sent ops) (b : Opens sent i2c)
    (c : Opens sent rtc) where
  open_devices_lem :
      (s : System H)
      → Ready sent ops i2c rtc uart_config1 i2c_config1
          (prepare platform s.machine.hardware)
          s
          (open_devices platform ops i2c rtc uart_config1 i2c_config1 s)
  unfolding open_devices
  open_devices_lem s = record {
    after = s3;
    first = s1.machine;
    second = s2.machine;
    opens_uart = a.opens v1 s0.machine;
    opens_i2c = b.opens v2 s1.machine;
    opens_rtc = c.opens v3 s2.machine;
    returns = rw (e1, e2) e3;
    to_uart = unfold driver_map in refl;
    to_i2c = unfold driver_map in refl;
    to_rtc = unfold driver_map in refl;
    keeps = refl;
    quiet =
        c.quiet v3 s2.machine
        ∙ b.quiet v2 s1.machine
        ∙ a.quiet v1 s0.machine
        ∙ calm s.machine.hardware;
  }
    where
      s0 : System H
      s0 = record s {
        machine = record s.machine { hardware = prepare platform s.machine.hardware };
      }

      v1 : Vnode
      v1 = record s.uart_node { dev_type = uart_type; dev_id = dev_uart; data_ptr = uart_config1 }

      s1 : System H
      s1 = record s0 {
        devices = driver_map dev_uart ops s.devices;
        uart_node = a.node v1 s0.machine;
        machine = record s0.machine { hardware = a.hardware v1 s0.machine };
      }

      e1 : open_uart platform ops i2c rtc uart_config1 i2c_config1 s0 ≡ some s1
      e1 = unfold open_uart dev_open driver_map in rw (a.opens v1 s0.machine) refl

      v2 : Vnode
      v2 = record s.i2c_node { dev_type = i2c_type; dev_id = dev_i2c; data_ptr = i2c_config1 }

      s2 : System H
      s2 = record s1 {
        devices = driver_map dev_i2c i2c s1.devices;
        i2c_node = b.node v2 s1.machine;
        machine = record s1.machine { hardware = b.hardware v2 s1.machine };
      }

      e2 : open_i2c platform ops i2c rtc uart_config1 i2c_config1 s1 ≡ some s2
      e2 = unfold open_i2c dev_open driver_map in rw (b.opens v2 s1.machine) refl

      v3 : Vnode
      v3 = record s.rtc_node { dev_type = rtc_type; dev_id = dev_rtc }

      s3 : System H
      s3 = record s2 {
        devices = driver_map dev_rtc rtc s2.devices;
        rtc_node = c.node v3 s2.machine;
        machine = record s2.machine { hardware = c.hardware v3 s2.machine };
      }

      e3 : open_rtc platform ops i2c rtc uart_config1 i2c_config1 s2 ≡ some s3
      e3 = unfold open_rtc dev_open driver_map in rw (c.opens v3 s2.machine) refl

-- The kernel entry up to a text that it prints.
pub record Prints {H : Type 0} (sent : H → List ℕ) (ops i2c rtc : DevOps H)
    (uart_config1 i2c_config1 : ℕ) (prepared : H) (s : System H) (bytes : List ℕ)
    (result : Option (System H)) (print : System H → Option (Machine H)) : Type 0 where
  pub ready : Ready sent ops i2c rtc uart_config1 i2c_config1 prepared s result
  pub printed : Machine H
  pub prints : print ready.after ≡ some printed
  pub logs : sent printed.hardware ≡ sent s.machine.hardware ++ bytes

module _ {H : Type 0} (platform : Platform H) (sent : H → List ℕ)
    (calm : (h : H) → sent (prepare platform h) ≡ sent h) (usic : Usic H) (polls : ℕ)
    (vendor : Call → H → H) (config : ℕ) (i2c rtc : DevOps H) (uart_config1 i2c_config1 : ℕ)
    (a : Opens sent (uart usic polls vendor config)) (b : Opens sent i2c) (c : Opens sent rtc)
    (line : Transmits usic polls sent) where
  -- If opening the devices ends and sends nothing, then open_devices ends, with the three drivers mapped and the
  -- three nodes opened by them one after the other, and behind it printf with a format of
  -- `n` characters without '%', at most 128, sends exactly these characters, in order, on the line of the UART.
  pub open_devices-printf :
      (s : System H) (garbage : Vnode) (layout : Layout) (n fuel scratch errno fmt : ℕ)
      → n < fuel
      → n ≤ 128
      → Text s.machine.memory scratch fmt n
      → s.machine.memory (fmt + n) ≡ 0
      → Prints sent
          (uart usic polls vendor config)
          i2c
          rtc
          uart_config1
          i2c_config1
          (prepare platform s.machine.hardware)
          s
          (cells n s.machine.memory fmt)
          (open_devices platform (uart usic polls vendor config) i2c rtc uart_config1 i2c_config1 s)
          (λ o. do
            (ret, m) ← printf o.devices garbage fuel layout scratch errno fmt [] o.machine
            if ret == 0 then some m else none)
  open_devices-printf s garbage layout n fuel scratch errno fmt enough short text ends =
      let r =
        open_devices_lem platform sent calm (uart usic polls vendor config) i2c rtc uart_config1
          i2c_config1 a b c s in
      let p =
        printf-sends_all r.after.devices garbage usic polls vendor config r.to_uart sent line layout
          n fuel scratch errno fmt [] r.after.machine enough short
          (subst (λ (m : ℕ → ℕ). Text m scratch fmt n) (sym r.keeps) text)
          (ap (λ (m : ℕ → ℕ). m (fmt + n)) r.keeps ∙ ends) in
      record {
        ready = r;
        printed = p.after;
        prints = p.returns;
        logs =
            p.logs
            ∙ ap (λ (l : List ℕ). l ++ cells n r.after.machine.memory fmt) r.quiet
            ∙ ap (λ (m : ℕ → ℕ). sent s.machine.hardware ++ cells n m fmt) r.keeps;
      }
