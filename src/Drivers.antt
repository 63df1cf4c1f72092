-- ===== src/Drivers.antt =====
-- The device drivers under dev/, over the vendor's functions.
pub mod Usic
pub mod Gpio
pub mod Loops
pub mod Uart
pub mod Spi
pub mod I2c
pub mod Rtc
pub mod Mmc
pub mod Lcd
pub mod Pwm
pub mod Mcu
