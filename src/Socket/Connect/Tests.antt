-- ===== src/Socket/Connect/Tests.antt =====
-- The second port can be bound.
use sharpvpn.Base.{◌≡◌, refl, ◌==◌, not, true, some}
use sharpvpn.Socket.Control.{connect, retry}
use sharpvpn.Socket.Connect.{connect_addr, bind_control}

second_port :
    connect_addr (λ i. some (5, 50021)) (λ p. not (p == 2000)) 9
    ≡ some (record { send_speed = 5; port = 50021; control_port = 2001; worker_running = true })
unfolding connect_addr bind_control connect retry
second_port = refl
