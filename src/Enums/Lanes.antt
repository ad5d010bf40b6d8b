-- ===== src/Enums/Lanes.antt =====
-- The enumerations of file_lane.h and stream_lane.h: the enumerators of each as a data type, and their values.
use coakka_runtime_swift.Prelude.{ℕ, ◌^◌}
use coakka_runtime_swift.Enums.Transport.{TcpSecurityMode, tcp_security_mode}

pub data StreamLaneSecurityMode : Type 0 where
  direct tls mutual_tls : StreamLaneSecurityMode

unfoldable pub stream_lane_security_mode : StreamLaneSecurityMode → ℕ
unfolding tcp_security_mode
stream_lane_security_mode StreamLaneSecurityMode.direct =
    tcp_security_mode TcpSecurityMode.plaintext
stream_lane_security_mode StreamLaneSecurityMode.tls = tcp_security_mode TcpSecurityMode.tls
stream_lane_security_mode StreamLaneSecurityMode.mutual_tls =
    tcp_security_mode TcpSecurityMode.mutual_tls

pub data StreamDirection : Type 0 where
  publish subscribe : StreamDirection

unfoldable pub stream_direction : StreamDirection → ℕ
stream_direction StreamDirection.publish = 1
stream_direction StreamDirection.subscribe = 2

pub data StreamState : Type 0 where
  prepared queued connecting active stopping ended rejected failed canceled : StreamState

unfoldable pub stream_state : StreamState → ℕ
stream_state StreamState.prepared = 1
stream_state StreamState.queued = 2
stream_state StreamState.connecting = 3
stream_state StreamState.active = 4
stream_state StreamState.stopping = 5
stream_state StreamState.ended = 6
stream_state StreamState.rejected = 7
stream_state StreamState.failed = 8
stream_state StreamState.canceled = 9

pub data StreamPressureState : Type 0 where
  inactive flowing pressured stalled recovering : StreamPressureState

unfoldable pub stream_pressure_state : StreamPressureState → ℕ
stream_pressure_state StreamPressureState.inactive = 0
stream_pressure_state StreamPressureState.flowing = 1
stream_pressure_state StreamPressureState.pressured = 2
stream_pressure_state StreamPressureState.stalled = 3
stream_pressure_state StreamPressureState.recovering = 4

pub data StreamPressureReason : Type 0 where
  credit_wait transport_write consumer_busy transport_read : StreamPressureReason

unfoldable pub stream_pressure_reason : StreamPressureReason → ℕ
stream_pressure_reason StreamPressureReason.credit_wait = 2 ^ 0
stream_pressure_reason StreamPressureReason.transport_write = 2 ^ 1
stream_pressure_reason StreamPressureReason.consumer_busy = 2 ^ 2
stream_pressure_reason StreamPressureReason.transport_read = 2 ^ 3

pub data StreamResult : Type 0 where
  none ok not_prepared token_mismatch format_mismatch frame_limit network_io timeout queue_full
        protocol_error source_error consumer_error internal_error canceled_by_host
        tls_config_invalid tls_handshake_failed peer_cert_untrusted peer_cert_expired
        peer_identity_mismatch client_cert_required :
      StreamResult

unfoldable pub stream_result : StreamResult → ℕ
stream_result StreamResult.none = 0
stream_result StreamResult.ok = 1
stream_result StreamResult.not_prepared = 2
stream_result StreamResult.token_mismatch = 3
stream_result StreamResult.format_mismatch = 4
stream_result StreamResult.frame_limit = 5
stream_result StreamResult.network_io = 6
stream_result StreamResult.timeout = 7
stream_result StreamResult.queue_full = 8
stream_result StreamResult.protocol_error = 9
stream_result StreamResult.source_error = 10
stream_result StreamResult.consumer_error = 11
stream_result StreamResult.internal_error = 12
stream_result StreamResult.canceled_by_host = 13
stream_result StreamResult.tls_config_invalid = 14
stream_result StreamResult.tls_handshake_failed = 15
stream_result StreamResult.peer_cert_untrusted = 16
stream_result StreamResult.peer_cert_expired = 17
stream_result StreamResult.peer_identity_mismatch = 18
stream_result StreamResult.client_cert_required = 19

pub data FileLaneSecurityMode : Type 0 where
  direct tls mutual_tls : FileLaneSecurityMode

unfoldable pub file_lane_security_mode : FileLaneSecurityMode → ℕ
unfolding tcp_security_mode
file_lane_security_mode FileLaneSecurityMode.direct = tcp_security_mode TcpSecurityMode.plaintext
file_lane_security_mode FileLaneSecurityMode.tls = tcp_security_mode TcpSecurityMode.tls
file_lane_security_mode FileLaneSecurityMode.mutual_tls =
    tcp_security_mode TcpSecurityMode.mutual_tls

pub data FileTransferDirection : Type 0 where
  send receive : FileTransferDirection

unfoldable pub file_transfer_direction : FileTransferDirection → ℕ
file_transfer_direction FileTransferDirection.send = 1
file_transfer_direction FileTransferDirection.receive = 2

pub data FileTransferState : Type 0 where
  prepared queued connecting transferring verifying completed paused rejected failed canceled :
      FileTransferState

unfoldable pub file_transfer_state : FileTransferState → ℕ
file_transfer_state FileTransferState.prepared = 1
file_transfer_state FileTransferState.queued = 2
file_transfer_state FileTransferState.connecting = 3
file_transfer_state FileTransferState.transferring = 4
file_transfer_state FileTransferState.verifying = 5
file_transfer_state FileTransferState.completed = 6
file_transfer_state FileTransferState.paused = 7
file_transfer_state FileTransferState.rejected = 8
file_transfer_state FileTransferState.failed = 9
file_transfer_state FileTransferState.canceled = 10

pub data FileTransferResult : Type 0 where
  none ok not_prepared token_mismatch metadata_mismatch size_limit storage_io integrity_mismatch
        network_io timeout queue_full protocol_error source_changed internal_error canceled_by_host
        tls_config_invalid tls_handshake_failed peer_cert_untrusted peer_cert_expired
        peer_identity_mismatch client_cert_required :
      FileTransferResult

unfoldable pub file_transfer_result : FileTransferResult → ℕ
file_transfer_result FileTransferResult.none = 0
file_transfer_result FileTransferResult.ok = 1
file_transfer_result FileTransferResult.not_prepared = 2
file_transfer_result FileTransferResult.token_mismatch = 3
file_transfer_result FileTransferResult.metadata_mismatch = 4
file_transfer_result FileTransferResult.size_limit = 5
file_transfer_result FileTransferResult.storage_io = 6
file_transfer_result FileTransferResult.integrity_mismatch = 7
file_transfer_result FileTransferResult.network_io = 8
file_transfer_result FileTransferResult.timeout = 9
file_transfer_result FileTransferResult.queue_full = 10
file_transfer_result FileTransferResult.protocol_error = 11
file_transfer_result FileTransferResult.source_changed = 12
file_transfer_result FileTransferResult.internal_error = 13
file_transfer_result FileTransferResult.canceled_by_host = 14
file_transfer_result FileTransferResult.tls_config_invalid = 15
file_transfer_result FileTransferResult.tls_handshake_failed = 16
file_transfer_result FileTransferResult.peer_cert_untrusted = 17
file_transfer_result FileTransferResult.peer_cert_expired = 18
file_transfer_result FileTransferResult.peer_identity_mismatch = 19
file_transfer_result FileTransferResult.client_cert_required = 20
