-- ===== src/Tests/Times.antt =====
-- A DS1307 on an I2C bus: the state of the hardware is that of the clock.
use pascal_scheduler.Prelude.{ℕ, ◌%◌, false, ◌==◌, if◌then◌else◌}
use pascal_scheduler.Dev.{Machine, DevOps}
use pascal_scheduler.Drivers.Usic.{Usic}
use pascal_scheduler.Drivers.I2c.{Master, i2c}
use pascal_scheduler.Drivers.Rtc.Ds1307.{
  Clock, unselected, on_start_write, on_start_read, on_byte, on_fetch, on_stop,
}

abbrev usic : Usic Clock
usic = record {
  tx_fifo_is_full = λ h. (false, h);
  tx_fifo_put_data = λ b h. on_byte (b % 256) h;
  rx_fifo_is_empty = λ h. (false, h);
  rx_fifo_get_data = λ h. (h.registers h.pointer, on_fetch h);
}

abbrev master : Master Clock
master = record {
  start_write = on_start_write;
  start_read = on_start_read;
  stop = on_stop;
  receive_ack = λ h. h;
  receive_nack = λ h. h;
  get_status_flag = λ h. (16384, h);
  clear_status_flag = λ flag h. h;
  set_up = λ call h. h;
  ack_received = 512;
  receive_indication = 16384;
  alternative_receive_indication = 32768;
}

abbrev devices : ℕ → DevOps Clock
devices id = i2c usic master 1 1000

-- 17.6.16, 14:53:00 at the address 300.
abbrev line : Machine Clock
line = record {
  memory = λ a.
      if a == 304
      then 53
      else if a == 308
      then 14
      else if a == 312
      then 17
      else if a == 316
      then 6
      else if a == 320
      then 16
      else 0;
  hardware = record { registers = λ i. 0; pointer = 0; phase = unselected };
}
