-- ===== src/Tests/Printing.antt =====
-- A format of three letters, and numbers in base 10 and 16.
use pascal_scheduler.Prelude.{
  ℕ, ◌-◌, ◌≡◌, ◌^◌, refl, true, false, none, some, arith, List, [], ◌∷◌, ◌++◌, ltb, ◌==◌,
  if◌then◌else◌, ◌>>=◌,
}
use pascal_scheduler.Dev.{Machine, Vnode, DevOps, uart_type}
use pascal_scheduler.Drivers.Usic.{Usic, poll, Transmits}
use pascal_scheduler.Drivers.Uart.{Call, uart, usic_uart_open, perform, open_calls}
use pascal_scheduler.Drivers.I2c.{Master, i2c, usic_i2c_open, i2c_open_calls}
use pascal_scheduler.Drivers.Rtc.{ds1307_rtc_open, ds1307_rtc_transfer, ds1307_rtc_ioctl}
use pascal_scheduler.Boot.Devices.{System, Platform, prepare, init_ports, open_devices}
use pascal_scheduler.Boot.Devices.Console.{Opens, Prints, open_devices-printf}
use pascal_scheduler.Libc.Digits.{grow, emit, digit, take_digit, ui2a, i2a}
use pascal_scheduler.Libc.Digits.Shortest.{Written, ui2a_lem, Signed, i2a_lem}
use pascal_scheduler.Libc.Printf.{Layout, printf}
use pascal_scheduler.Libc.Printf.Plain.{Puts, Text, printf-sends_all}

-- The line keeps what has been sent, and is always free.
abbrev usic : Usic (List ℕ)
usic = record {
  tx_fifo_is_full = λ h. (false, h);
  tx_fifo_put_data = λ b h. h ++ (b ∷ []);
  rx_fifo_is_empty = λ h. (true, h);
  rx_fifo_get_data = λ h. (0, h);
}

usic-Transmits : Transmits usic 1 (λ h. h)
unfolding poll
usic-Transmits = record {
  drains = λ h. record { after = h; ends = refl; kept = refl };
  puts = λ b h. refl;
}

abbrev ignore : Call → List ℕ → List ℕ
ignore call h = h

abbrev devices : ℕ → DevOps (List ℕ)
devices id = uart usic 1 ignore 1000

abbrev vnode : Vnode
vnode = record { dev_type = uart_type; dev_id = 0; endpt = 0; offset = 0; data_ptr = 0 }

-- The letters are at 500.
abbrev letters : ℕ → ℕ
letters a = if ltb a 503 then 65 else 0

abbrev machine : Machine (List ℕ)
machine = record { memory = letters; hardware = [] }

abbrev layout : Layout
layout = record { bf = 900; nan = 920; hex = 930 }

letters-Text : Text letters 940 500 3
letters-Text = record {
  nonzero = λ (i : ℕ) h. ground (arith, h);
  no_percent = λ (i : ℕ) h. ground (arith, h);
  apart = λ (i : ℕ) h. omega (arith, h);
}

printf-sends_all_example :
    Puts
      (λ h. h)
      940
      machine
      (65 ∷ 65 ∷ 65 ∷ [])
      (do
        (ret, m') ← printf devices vnode 9 layout 940 0 500 [] machine
        if ret == 0 then some m' else none)
printf-sends_all_example =
    printf-sends_all devices vnode usic 1 ignore 1000 refl (λ h. h) usic-Transmits layout 3 9 940 0
      500 [] machine (omega arith) (omega arith) letters-Text refl

ui2a_lem_example : Written 16 48879 (ui2a 48879 16)
ui2a_lem_example = ui2a_lem 48879 16 (omega arith) (omega arith) (omega arith)

i2a_lem_example : Signed 10 2147483648 true (i2a (2 ^ 64 - 2147483648) 10)
i2a_lem_example = i2a_lem true 2147483648 10 (omega arith) (omega arith) (omega arith)

-- 48879 is 0xBEEF.
ui2a_hex : ui2a 48879 16 ≡ some (66 ∷ 69 ∷ 69 ∷ 70 ∷ 0 ∷ [])
unfolding ui2a grow emit digit take_digit
ui2a_hex = refl

abbrev master : Master (List ℕ)
master = record {
  start_write = λ peer h. h;
  start_read = λ peer h. h;
  stop = λ h. h;
  receive_ack = λ h. h;
  receive_nack = λ h. h;
  get_status_flag = λ h. (1, h);
  clear_status_flag = λ flag h. h;
  set_up = λ call h. h;
  ack_received = 1;
  receive_indication = 2;
  alternative_receive_indication = 4;
}

abbrev clock : DevOps (List ℕ)
clock = record {
  d_open = ds1307_rtc_open;
  d_close = ds1307_rtc_open;
  d_read = ds1307_rtc_transfer;
  d_write = ds1307_rtc_transfer;
  d_ioctl = λ v code tm m. ds1307_rtc_ioctl devices 2 950 960 code tm vnode m;
}

abbrev platform : Platform (List ℕ)
platform = record {
  system_core_clock_update = λ h. h;
  set_svcall_priority = λ n h. h;
  set_systick_priority = λ n h. h;
  set_mode_output = λ h. h;
  set_output_high = λ h. h;
}

abbrev before : System (List ℕ)
before = record {
  devices = devices;
  uart_node = vnode;
  i2c_node = vnode;
  rtc_node = vnode;
  machine = machine;
}

uart-Opens : Opens (λ h. h) (uart usic 1 ignore 1000)
unfolding uart usic_uart_open perform open_calls
uart-Opens = record {
  node = λ v m. record v { data_ptr = 1000 };
  hardware = λ v m. m.hardware;
  opens = λ v m. refl;
  quiet = λ v m. refl;
}

i2c-Opens : Opens (λ h. h) (i2c usic master 1 1000)
unfolding i2c usic_i2c_open perform i2c_open_calls
i2c-Opens = record {
  node = λ v m. record v { data_ptr = 1000 };
  hardware = λ v m. m.hardware;
  opens = λ v m. refl;
  quiet = λ v m. refl;
}

clock-Opens : Opens (λ h. h) clock
unfolding ds1307_rtc_open
clock-Opens = record {
  node = λ v m. v;
  hardware = λ v m. m.hardware;
  opens = λ v m. refl;
  quiet = λ v m. refl;
}

open_devices-printf_example :
    Prints
      (λ h. h)
      (uart usic 1 ignore 1000)
      (i2c usic master 1 1000)
      clock
      700
      710
      (prepare platform before.machine.hardware)
      before
      (65 ∷ 65 ∷ 65 ∷ [])
      (open_devices platform
        (uart usic 1 ignore 1000)
        (i2c usic master 1 1000)
        clock
        700
        710
        before)
      (λ o. do
        (ret, m) ← printf o.devices vnode 9 layout 940 0 500 [] o.machine
        if ret == 0 then some m else none)
open_devices-printf_example =
    open_devices-printf platform (λ h. h) (unfold prepare init_ports in λ h. refl) usic 1 ignore
      1000 (i2c usic master 1 1000) clock 700 710 uart-Opens i2c-Opens clock-Opens usic-Transmits
      before vnode layout 3 9 940 0 500 (omega arith) (omega arith) letters-Text refl
