-- ===== src/Socket/Tests.antt =====
-- The socket options at concrete answers.
use anoii.Prelude.{◌≡◌, refl, ok, err, aborted}
use anoii.Socket.{
  failed, gives, SocketOptions, set_tcp_no_delay, set_tcp_keey_alive, set_close_exec_non_block,
  get_sock_error,
}

abbrev defaults : SocketOptions
defaults = record { tcp_nodelay = 0; so_keepalive = 0 }

flags_test : set_close_exec_non_block (gives 2) (gives 0) ≡ ok 0x80802
unfolding set_close_exec_non_block
flags_test = refl

error_test : get_sock_error (failed 9) ≡ 9
unfolding get_sock_error
error_test = refl

-- An option that the kernel did store ends the process.
no_delay_test :
    (set_tcp_no_delay (gives 0) defaults ≡ err aborted)
    × (set_tcp_no_delay (failed 9) defaults ≡ ok defaults)
    × (set_tcp_keey_alive (gives 0) defaults ≡ err aborted)
unfolding set_tcp_no_delay set_tcp_keey_alive
no_delay_test = (refl, refl, refl)
