-- ===== src/Bookings/Policies/Deposits.antt =====
-- When a deposit is asked for, and how much.
