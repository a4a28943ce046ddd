-- ===== src/Pay.antt =====
-- resolver/internal/pay/pay.go: the vouchers of a payment channel.
pub mod Voucher
pub mod Binding
