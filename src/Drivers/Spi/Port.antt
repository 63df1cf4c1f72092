-- ===== src/Drivers/Spi/Port.antt =====
-- The port of a device on the SPI bus: what the MMC driver uses of the device switch, its laws, and the
-- port that goes through the device switch.
pub mod Laws
use pascal_scheduler.Prelude.{
  store_all, ◌>>=◌, ◌≤◌, ℕ, zero, suc, ◌+◌, ◌<◌, ◌^◌, ◌≡◌, List, [], ◌∷◌, ◌++◌, length, cells,
  store, Option, some, refl, sym, ap, ◌∙◌, arith,
}
use pascal_scheduler.Dev.{Vnode, Machine, DevOps, dev_write, dev_read, dev_ioctl}
use pascal_scheduler.Drivers.Loops.{read_to, send_from, write_uio, read_uio}
use pascal_scheduler.Drivers.Loops.Transfer.{Sent, send_from_lem}
use pascal_scheduler.Drivers.Loops.Uios.{dev_write_whole, dev_read_whole}
use pascal_scheduler.Drivers.Spi.{
  Channel, spi, spi_send, spi_read, usic_spi_write, usic_spi_read, spi_ioctl_enable_slave,
  spi_ioctl_disable_slave,
}
use pascal_scheduler.Drivers.Spi.Transfer.{Bus, spi_send_lem}

-- The calls of the device switch, on the state `S`. A buffer is the list of its bytes.
pub record Port (S : Type 0) : Type 0 where
  -- dev_write
  pub send : List ℕ → S → Option S
  -- dev_read
  pub receive : ℕ → S → Option (List ℕ × S)
  -- dev_ioctl with SPI_IOCTL_ENABLE_SLAVE and the slave, and with SPI_IOCTL_DISABLE_SLAVE
  pub enable_slave : ℕ → S → Option S
  pub disable_slave : S → Option S

-- A read of `n` bytes has given the next bytes of the stream `coming`, moved the stream on, and sent
-- nothing.
pub record Received {S : Type 0} (sent : S → List ℕ) (coming : S → ℕ → ℕ) (s : S) (n : ℕ)
    (result : Option (List ℕ × S)) : Type 0 where
  pub after : S
  pub returns : result ≡ some (cells n (coming s) 0, after)
  pub moves : (i : ℕ) → coming after i ≡ coming s (i + n)
  pub kept : sent after ≡ sent s

-- The laws: `sent` is what the port has sent, and `coming` the bytes that reads will give.
pub record Conducts {S : Type 0} (port : Port S) (sent : S → List ℕ) (coming : S → ℕ → ℕ)
    : Type 0 where
  pub sends :
      (bytes : List ℕ) (s : S) → length bytes < 2 ^ 31 → Sent sent s (port.send bytes s) bytes
  pub receives : (n : ℕ) (s : S) → n < 2 ^ 31 → Received sent coming s n (port.receive n s)

-- The port that goes through the device switch, with the buffer at `buf` and the bus at `node`. The SPI
-- driver hands a vnode back as it was.
module _ {H : Type 0} (devices : ℕ → DevOps H) (node : Vnode) (buf : ℕ) where
  unfoldable pub spi_port : Port (Machine H)
  spi_port = record {
    send = λ bytes m. do
      (n, node', m') ←
          dev_write devices buf (length bytes) node
            (record m { memory = store_all bytes buf m.memory })
      some m';
    receive = λ n m. do
      (k, node', m') ← dev_read devices 2 buf n node m
      some (cells n m'.memory buf, m');
    enable_slave = λ slave m. do
      (k, node', m') ←
          dev_ioctl devices node spi_ioctl_enable_slave buf
            (record m { memory = store buf slave m.memory })
      some m';
    disable_slave = λ m. do
      (k, node', m') ← dev_ioctl devices node spi_ioctl_disable_slave 0 m
      some m';
  }
