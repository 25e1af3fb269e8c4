-- ===== src/Installer/Window/Layout.antt =====
-- `createControls` of sentinel/src/installer/gui_windows.go: the controls of the window, with their
-- places.
pub mod Shows
use remote_pc_controller.Prelude.{ℕ, true, not, List, ◌≡◌}
use remote_pc_controller.Prelude.Dict.{Dict}
use remote_pc_controller.Prelude.Text.{Text, codes, equal}
use remote_pc_controller.DotEnv.{get}
use remote_pc_controller.Installer.Window.Controls.{
  Screen, at, create_label, create_group_box, create_edit, create_numeric_edit,
  create_multiline_edit, create_button, create_check_box,
}

abbrev pub id_btn_install : ℕ
id_btn_install = 101

abbrev pub id_btn_start : ℕ
id_btn_start = 102

abbrev pub id_btn_stop : ℕ
id_btn_stop = 103

abbrev pub id_btn_uninstall : ℕ
id_btn_uninstall = 104

abbrev pub id_btn_load_file : ℕ
id_btn_load_file = 105

abbrev pub id_btn_paste : ℕ
id_btn_paste = 106

abbrev pub id_txt_port : ℕ
id_txt_port = 201

abbrev pub id_txt_dev : ℕ
id_txt_dev = 202

abbrev pub id_txt_skew : ℕ
id_txt_skew = 203

abbrev pub id_txt_key : ℕ
id_txt_key = 204

abbrev pub id_chk_fw : ℕ
id_chk_fw = 205

abbrev pub id_chk_notify : ℕ
id_chk_notify = 206

-- The size of the window.
abbrev pub window_width : ℕ
window_width = 640

abbrev pub window_height : ℕ
window_height = 780

-- The fonts of the state.
pub record Fonts : Type 0 where
  pub normal : ℕ
  pub small : ℕ
  pub bold : ℕ
  pub title : ℕ
  pub mono : ℕ

-- The handles of the state.
pub record Handles : Type 0 where
  pub h_status_pill : ℕ
  pub h_txt_port : ℕ
  pub h_lbl_port_status : ℕ
  pub h_txt_dev : ℕ
  pub h_txt_skew : ℕ
  pub h_chk_fw : ℕ
  pub h_chk_notify : ℕ
  pub h_lbl_key_status : ℕ
  pub h_txt_key : ℕ
  pub h_btn_install : ℕ
  pub h_btn_start : ℕ
  pub h_btn_stop : ℕ
  pub h_btn_uninstall : ℕ
  pub h_lbl_log : ℕ

unfoldable pub create_controls : ℕ → Dict Text → Fonts → Screen → Handles × Screen
unfolding get equal create_label create_group_box create_edit create_numeric_edit
    create_multiline_edit create_button create_check_box
create_controls hwnd values f s =
    let (_, s1) =
      create_label hwnd (codes "Sentinel Agent - Control de Servicio") (at 20 16 580 26) f.title
        s in
    let (_, s2) =
      create_label hwnd
        (codes "Configura e instala el agente para inicio automático como Servicio de Windows")
        (at 20 44 580 18) f.normal s1 in
    let (_, s3) =
      create_group_box hwnd (codes " Estado del Servicio ") (at 20 70 584 55) f.bold s2 in
    let (_, s4) = create_label hwnd (codes "Estado actual:") (at 36 92 100 20) f.bold s3 in
    let (h_status_pill, s5) =
      create_label hwnd (codes "Consultando...") (at 140 92 440 20) f.bold s4 in
    let (_, s6) =
      create_group_box hwnd (codes " Parámetros de Configuración (.env) ") (at 20 134 584 456)
        f.bold s5 in
    let (_, s7) = create_label hwnd (codes "Puerto de Escucha:") (at 36 158 140 18) f.normal s6 in
    let (h_txt_port, s8) =
      create_numeric_edit hwnd (get (codes "PORT") values) (at 36 178 110 24) id_txt_port f.normal 5
        s7 in
    let (h_lbl_port_status, s9) =
      create_label hwnd (codes "Comprobando...") (at 156 180 420 20) f.small s8 in
    let (_, s10) =
      create_label hwnd (codes "Device ID (Nombre en Relay):") (at 36 208 220 18) f.normal s9 in
    let (h_txt_dev, s11) =
      create_edit hwnd (get (codes "DEVICE_ID") values) (at 36 228 240 24) id_txt_dev f.normal
        s10 in
    let (_, s12) = create_label hwnd (codes "Reloj Skew (seg):") (at 300 208 140 18) f.normal s11 in
    let (h_txt_skew, s13) =
      create_numeric_edit hwnd (get (codes "CLOCK_SKEW_SECONDS") values) (at 300 228 120 24)
        id_txt_skew f.normal 4 s12 in
    let (h_chk_fw, s14) =
      create_check_box hwnd
        (codes "Abrir regla de entrada en el Firewall de Windows automáticamente")
        (at 36 258 540 22) id_chk_fw f.normal true s13 in
    let (h_chk_notify, s15) =
      create_check_box hwnd
        (codes "Mostrar notificaciones de escritorio en fallos de validación y eventos")
        (at 36 284 540 22) id_chk_notify f.normal
        (not (equal (get (codes "ENABLE_NOTIFICATIONS") values) (codes "false"))) s14 in
    let (_, s16) =
      create_label hwnd (codes "Clave Pública RSA (PEM):") (at 36 314 180 18) f.normal s15 in
    let (_, s17) =
      create_button hwnd (codes "📂 Cargar Archivo .pem...") (at 224 310 180 24) id_btn_load_file
        f.normal s16 in
    let (_, s18) =
      create_button hwnd (codes "📋 Pegar") (at 412 310 95 24) id_btn_paste f.normal s17 in
    let (h_lbl_key_status, s19) =
      create_label hwnd (codes "Comprobando clave...") (at 36 338 550 20) f.small s18 in
    let (h_txt_key, s20) =
      create_multiline_edit hwnd (get (codes "PUBLIC_KEY") values) (at 36 360 550 216) id_txt_key
        f.mono s19 in
    let (h_btn_install, s21) =
      create_button hwnd (codes "🚀 Instalar Servicio") (at 20 604 175 42) id_btn_install f.bold
        s20 in
    let (h_btn_start, s22) =
      create_button hwnd (codes "▶ Iniciar") (at 205 604 115 42) id_btn_start f.bold s21 in
    let (h_btn_stop, s23) =
      create_button hwnd (codes "⏹ Detener") (at 330 604 115 42) id_btn_stop f.bold s22 in
    let (h_btn_uninstall, s24) =
      create_button hwnd (codes "🗑 Desinstalar") (at 455 604 149 42) id_btn_uninstall f.bold s23 in
    let (h_lbl_log, s25) = create_label hwnd (codes "Listo.") (at 20 658 584 30) f.normal s24 in
    (
      record {
        h_status_pill = h_status_pill;
        h_txt_port = h_txt_port;
        h_lbl_port_status = h_lbl_port_status;
        h_txt_dev = h_txt_dev;
        h_txt_skew = h_txt_skew;
        h_chk_fw = h_chk_fw;
        h_chk_notify = h_chk_notify;
        h_lbl_key_status = h_lbl_key_status;
        h_txt_key = h_txt_key;
        h_btn_install = h_btn_install;
        h_btn_start = h_btn_start;
        h_btn_stop = h_btn_stop;
        h_btn_uninstall = h_btn_uninstall;
        h_lbl_log = h_lbl_log;
      },
      s25,
    )
