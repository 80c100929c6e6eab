-- ===== src/Channel/Bits.antt =====
-- The interest mask of a Channel.
use high_concurrency_server.Common.{◌≡◌, true, false, arith}
use high_concurrency_server.Channel.{
  Channel, fd_is_read, fd_is_write, fd_add_read, fd_add_write, fd_delete_read, fd_delete_write,
}

-- `Fd_Add_Write` and `Fd_Delete_Write` set and clear the write interest, and leave the read interest
-- as it is.
pub write_interest :
    {F : Type 0} (c : Channel F)
    → (fd_is_write (fd_add_write c) ≡ true)
      × (fd_is_write (fd_delete_write c) ≡ false)
      × (fd_is_read (fd_add_write c) ≡ fd_is_read c)
      × (fd_is_read (fd_delete_write c) ≡ fd_is_read c)
unfolding fd_is_write fd_add_write fd_delete_write fd_is_read
write_interest c = (ground arith, ground arith, ground arith, ground arith)

-- `Fd_Add_Read` and `Fd_Delete_Read` set and clear the read interest, and leave the write interest
-- as it is.
pub read_interest :
    {F : Type 0} (c : Channel F)
    → (fd_is_read (fd_add_read c) ≡ true)
      × (fd_is_read (fd_delete_read c) ≡ false)
      × (fd_is_write (fd_add_read c) ≡ fd_is_write c)
      × (fd_is_write (fd_delete_read c) ≡ fd_is_write c)
unfolding fd_is_write fd_add_read fd_delete_read fd_is_read
read_interest c = (ground arith, ground arith, ground arith, ground arith)
