-- ===== src/Reactor/RequestId/Tests.antt =====
-- Instances: descriptor 9 with the nonce 3.
use go_uring.Base.{◌≡◌, arith}
use go_uring.Reactor.RequestId.{pack_request_id, request_fd, request_nonce}
use go_uring.Reactor.RequestId.Pack.{pack_request_id_lem}

pack_request_id_lem_example :
    (request_fd (pack_request_id 9 3) ≡ 9)
    × (request_nonce (pack_request_id 9 3) ≡ 3)
    × (pack_request_id (request_fd 0x500000008) (request_nonce 0x500000008) ≡ 0x500000008)
pack_request_id_lem_example =
    pack_request_id_lem 9 3 0x500000008 (omega arith) (omega arith) (omega arith)
