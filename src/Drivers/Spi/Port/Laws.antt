-- ===== src/Drivers/Spi/Port/Laws.antt =====
-- The port over the SPI driver keeps the laws.
use pascal_scheduler.Prelude.{
  cells_move, store_all, ◌%◌, ℕ, zero, suc, ◌+◌, ◌<◌, ◌^◌, ◌≡◌, List, [], ◌∷◌, ◌++◌, length, cells,
  store, Option, some, refl, ap, ◌∙◌, arith,
}
use pascal_scheduler.Dev.{Vnode, Machine, DevOps}
use pascal_scheduler.Drivers.Loops.{read_to, send_from, write_uio, read_uio}
use pascal_scheduler.Drivers.Loops.Transfer.{Sent, send_from_lem}
use pascal_scheduler.Drivers.Loops.Uios.{dev_write_whole, dev_read_whole}
use pascal_scheduler.Drivers.Spi.{Channel, spi, spi_send, spi_read, usic_spi_write, usic_spi_read}
use pascal_scheduler.Drivers.Spi.Transfer.{Bus, spi_send_lem}
use pascal_scheduler.Drivers.Spi.Port.{Received, Conducts, spi_port}

store_all_below :
    (bytes : List ℕ) (buf a : ℕ) (memory : ℕ → ℕ)
    → a < buf
    → store_all bytes buf memory a ≡ memory a
unfolding store_all store
store_all_below [] buf a memory h = refl
store_all_below (b ∷ bytes) buf a memory h =
    store_all_below bytes (buf + 1) a (store buf b memory) (omega (arith, h)) ∙ ground (arith, h)

cells-store_all :
    (bytes : List ℕ) (buf : ℕ) (memory : ℕ → ℕ)
    → cells (length bytes) (store_all bytes buf memory) buf ≡ bytes
unfolding store_all store
cells-store_all [] buf memory = refl
cells-store_all (b ∷ bytes) buf memory = λ j.
    (store_all_below bytes (buf + 1) buf (store buf b memory) (omega arith) ∙ at) j
    ∷ cells-store_all bytes (buf + 1) (store buf b memory) j
  where
    at : store buf b memory buf ≡ b
    at = ground arith

-- A loop of reads has filled memory from the stream.
record Streamed {H : Type 0} (sent : H → List ℕ) (coming : H → ℕ → ℕ) (m : Machine H) (n ptr : ℕ)
    (result : Option (Machine H)) : Type 0 where
  after : Machine H
  returns : result ≡ some after
  fills : cells n after.memory ptr ≡ cells n (coming m.hardware) 0
  moves : (i : ℕ) → coming after.hardware i ≡ coming m.hardware (i + n)
  below : (a : ℕ) → a < ptr → after.memory a ≡ m.memory a
  kept : sent after.hardware ≡ sent m.hardware

module _ {H : Type 0} (channel : Channel H) (polls : ℕ) (sent : H → List ℕ) (coming : H → ℕ → ℕ)
    (bus : Bus channel polls sent coming) where
  read_to-goes_on :
      (m : Machine H) (n ptr : ℕ)
      → ((m' : Machine H)
          → Streamed sent coming m' n (ptr + 1) (read_to (spi_read channel polls) n (ptr + 1) m'))
      → Streamed sent coming m (suc n) ptr (read_to (spi_read channel polls) (suc n) ptr m)
  unfolding read_to spi_read store
  read_to-goes_on m n ptr next = record {
    after = rest.after;
    returns = rest.returns;
    fills = λ j.
        (rest.below ptr (omega arith) ∙ stored ∙ (bus.receives m.hardware).0) j
        ∷ (rest.fills ∙ cells_move (coming m.hardware) (coming h') n 0 1 moved) j;
    moves = λ (i : ℕ).
        rest.moves i ∙ (bus.receives m.hardware).1 (i + n) ∙ ap (coming m.hardware) (omega arith);
    below = λ (a : ℕ) h. rest.below a (omega (arith, h)) ∙ ground (arith, h);
    kept = rest.kept ∙ (bus.receives m.hardware).2;
  }
    where
      byte : ℕ
      byte = (channel.get_received_data (channel.receive m.hardware)).0 % 256

      h' : H
      h' = (channel.get_received_data (channel.receive m.hardware)).1

      m' : Machine H
      m' = record { memory = store ptr byte m.memory; hardware = h' }

      rest : Streamed sent coming m' n (ptr + 1) (read_to (spi_read channel polls) n (ptr + 1) m')
      rest = next m'

      stored : store ptr byte m.memory ptr ≡ byte
      stored = ground arith

      moved : (i : ℕ) → coming h' (0 + i) ≡ coming m.hardware (1 + i)
      moved i =
          ap (coming h') (omega arith)
          ∙ (bus.receives m.hardware).1 i
          ∙ ap (coming m.hardware) (omega arith)

  read_to-streams :
      (n ptr : ℕ) (m : Machine H)
      → Streamed sent coming m n ptr (read_to (spi_read channel polls) n ptr m)
  read_to-streams zero ptr m =
      unfold read_to in
      record {
        after = m;
        returns = refl;
        fills = refl;
        moves = λ (i : ℕ). ap (coming m.hardware) (omega arith);
        below = λ (a : ℕ) h. refl;
        kept = refl;
      }
  read_to-streams (suc n) ptr m = read_to-goes_on m n ptr (read_to-streams n (ptr + 1))

  module _ (devices : ℕ → DevOps H) (node : Vnode) (buf config : ℕ)
      (mapped : devices node.dev_id ≡ spi channel polls config) (address : buf < 2 ^ 32) where
    -- On a bus that conducts, the port sends exactly the bytes of a buffer, in order, and fills a buffer
    -- with the next bytes of the stream, in order; both end.
    pub spi_port-Conducts :
        Conducts (spi_port devices node buf) (λ m. sent m.hardware) (λ m. coming m.hardware)
    unfolding spi_port
    spi_port-Conducts = record {
      sends = λ bytes m small. send_one bytes m small (
          send_from_lem sent (spi_send channel polls) (spi_send_lem channel polls sent coming bus)
            (length bytes) buf (store_all bytes buf m.memory) m.hardware);
      receives = λ n m small. receive_one n m small (read_to-streams n buf m);
    }
      where
        writes_by : (devices node.dev_id).d_write ≡ write_uio (spi_send channel polls)
        writes_by = unfold spi usic_spi_write in ap (λ (d : DevOps H). d.d_write) mapped

        reads_by : (devices node.dev_id).d_read ≡ read_uio (spi_read channel polls)
        reads_by = unfold spi usic_spi_read in ap (λ (d : DevOps H). d.d_read) mapped

        send_one :
            (bytes : List ℕ) (m : Machine H)
            → length bytes < 2 ^ 31
            → (s : Sent sent m.hardware
                (send_from
                  (spi_send channel polls)
                  (length bytes)
                  buf
                  (store_all bytes buf m.memory)
                  m.hardware)
                (cells (length bytes) (store_all bytes buf m.memory) buf))
            → Sent
                (λ (m : Machine H). sent m.hardware)
                m
                ((spi_port devices node buf).send bytes m)
                bytes
        send_one bytes m small s = record {
          after = record { memory = store_all bytes buf m.memory; hardware = s.after };
          returns =
              rw
                (dev_write_whole devices node buf (length bytes)
                  (record m { memory = store_all bytes buf m.memory }) small
                  (spi_send channel polls) writes_by s.returns)
                refl;
          sends =
              s.sends
              ∙ ap (λ (l : List ℕ). sent m.hardware ++ l) (cells-store_all bytes buf m.memory);
        }

        receive_one :
            (n : ℕ) (m : Machine H)
            → n < 2 ^ 31
            → (s : Streamed sent coming m n buf (read_to (spi_read channel polls) n buf m))
            → Received
                (λ (m : Machine H). sent m.hardware)
                (λ (m : Machine H). coming m.hardware)
                m
                n
                ((spi_port devices node buf).receive n m)
        receive_one n m small s = record {
          after = s.after;
          returns =
              rw
                (
                  dev_read_whole devices node buf n m small (spi_read channel polls) reads_by
                      s.returns address,
                  s.fills,
                )
                refl;
          moves = s.moves;
          kept = s.kept;
        }
