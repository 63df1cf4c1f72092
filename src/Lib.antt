-- ===== src/Lib.antt =====
-- PascalScheduler: a preemptive round-robin kernel for Cortex-M microcontrollers, with its drivers.
--
-- Scheduler/: src/scheduler.c and src/include/scheduler.h. `Kernel` holds the file's variables (current_tid,
-- registered_tasks, tasks, jiffy, mutex) and the memory that task stacks are written to. Pick is
-- k_task_update_state and k_task_peek_next, Ops is the SysTick handler `scheduler` and the calls k_task_sleep,
-- k_task_yield, k_mutex_lock and k_mutex_unlock, Register is k_task_register. A function that changes the
-- variables takes a Kernel and returns one.
-- Signals: src/signals.c. Isr: SVC_C_Handler of src/isr.c and the wrappers of src/syscall.c and src/mutex.c that
-- raise a supervisor call; Isr/Faults is its fault handler. Boot: _kernel_entry of src/kernel.c. Boot starts the
-- scheduler and registers the tasks, Devices maps and opens the devices and prints the banner, Entry composes
-- them. scheduler_init enables interrupts, so a timer interrupt that is pending since c_init is taken there.
-- After it the loop over the tasks can be interrupted: in `start` no further interrupt comes in the loop, and
-- Boot/Interrupted is the loop with interrupts and registered tasks between two registrations. A registration is
-- one step there, since k_task_register counts the new task last; what is said of the two tasks of main.c begins
-- where `start` ends. Boot/Ticks: src/c_init.c.
-- Main: src/main.c, the two tasks as the steps they take. Interleaving is the system of the two: the current task
-- takes its next step, or the timer interrupts it.
-- System: the kernel as a step relation. An event is the timer interrupt, a supervisor call of the current task
-- or a signal call; interrupts do not nest, so a run is a list of events. Its children are about the table (Valid),
-- the round of the tasks (Fairness), sleeping (Sleep, Wakeup and Return) and the mutex (Exclusion).
-- CircularBuffer: src/circular_buffer.c. The storage that sys_sbrk returns is a list.
-- Dev: the device switch of src/sys/dev.c, on a record of the operations of a driver. Drivers/Usic holds the
-- vendor's functions on a serial channel, and Drivers/Uart src/dev/uart/ifx_usic.c, Drivers/I2c
-- src/dev/i2c/ifx_usic.c and Drivers/Rtc src/dev/rtc/ds1307.c. Drivers/Rtc/Times is about a clock that keeps
-- what is set; what the clock's driver relies on there is the record Chip. Drivers/Rtc/Ds1307 is the chip by its
-- data sheet: what it does at each start condition, byte and stop condition (Clock), and how the vendor's
-- functions act with it on the wires (Attached), which is a hypothesis. Ds1307/Transfer is the I2C driver on
-- such a bus, and Drivers/Rtc/Wired fills Chip by it and the device switch. Drivers/Loops holds the loops over
-- the bytes of a transfer, which the UART and the SPI driver write alike, on a function for one byte.
-- Drivers/Spi: src/dev/spi/ifx_usic.c. Drivers/Spi/Port is what a device on the bus uses of the device switch: a
-- record of operations (Port) and of laws (Conducts), and the port that goes through the device switch.
-- Drivers/Mmc: src/dev/mmc/mmc_spi.c and mmc.h, over any port. Fields is the macro UNSTUFF_BITS, Crc mmc_crc7,
-- Commands the frames that are sent, Replies the loops that read, Sector the transfer of a block, Decode the
-- registers CSD and CID, Startup the dialogue from mmc_to_idle to mmc_get_info, and Ops the operations that the
-- device switch calls. A message that the driver prints is a constructor of Message, and printing is a
-- parameter.
-- Drivers/Lcd, Drivers/Pwm, Drivers/Gpio and Drivers/Mcu: src/dev/lcd/hd44780.c, src/dev/pwm/ifx_ccu4.c,
-- src/dev/gpio/ifx_gpio.h and src/dev/mcu/xmc.c. The functions in Drivers/Lcd give the calls they make, and
-- Words is a display that reads the bytes of these calls.
-- Syscall: the rest of src/syscall.c: the heap of sys_sbrk, and sys_read and sys_write over the device switch.
-- Libc: src/lib/libc. Digits is ui2a and i2a, Printf the other functions of printf.c and getchar, which call
-- Syscall, and Strings strcpy and strncpy.
--
-- A pointer into a task's stack is a number, and memory is a function from addresses. A machine word is a
-- natural number below 2 ^ 32, and signed comparison is read off its pattern (Prelude/Word). The loop of
-- k_task_peek_next has no bound in the source; `scan` runs it on fuel, one more than the number of tasks, and
-- Scheduler/Pick/Search proves that this is enough. SysTick_Config belongs to the vendor's library and is a
-- parameter, and so are its functions on the serial channel. The driver polls a status function in a loop; the
-- model polls at most a given number of times, and the theorems assume that this is enough for a FIFO to drain
-- or a byte to arrive (Transmits and Receives in Drivers/Usic, Bus in Drivers/Spi/Transfer). The loops of
-- the card's driver wait for an answer; they take fuel, and the theorems ask for more than the bytes that come
-- before the answer. The loops of ui2a take 33 and 34 rounds, which
-- Libc/Digits/Shortest proves enough. The other loops over strings take fuel as an argument, and
-- Libc/Printf/Plain says how much a plain format needs.
--
-- Not modelled: the assembly of the context switch and of the entries of the interrupts, and linker scripts.
pub mod Prelude
pub mod Scheduler
pub mod Signals
pub mod Isr
pub mod Syscall
pub mod Libc
pub mod System
pub mod Boot
pub mod Main
pub mod CircularBuffer
pub mod Dev
pub mod Drivers
pub mod Tests
